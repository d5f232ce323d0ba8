-- ===== src/Tests/FavoriteTests.antt =====
-- Favorites on small inputs.
use wormhole.Sources.{share}
use wormhole.Favorites.{
  FavoriteEntry, FavoriteFile, new_favorite, cleanup_favorites, toggle_favorite, is_favorite,
}
use wormhole.Favorites.Membership.{is_favorite-toggle_favorite}
use wormhole.Tests.Data.{docs, remote}
use wormhole.Common.{◌≡◌, refl, false, not, some, List, [], ◌∷◌, map}

abbrev song : FavoriteFile
song = record {
  path = "/home/ann/music/a.mp3";
  name = "a.mp3";
  source_id = "s2";
  source_type = share;
  is_dir = false;
  size = some 9;
}

abbrev note : FavoriteFile
note = record song { path = "/home/ann/docs/b.txt"; name = "b.txt"; source_id = "s1" }

abbrev starred : List FavoriteEntry
starred = new_favorite song "f1" 3 ∷ []

toggled : map (λ f. f.id) (toggle_favorite note "f2" 4 starred) ≡ "f2" ∷ "f1" ∷ []
unfolding toggle_favorite
toggled = refl

cleaned :
    cleanup_favorites (docs ∷ []) (remote ∷ []) (toggle_favorite note "f2" 4 starred)
    ≡ new_favorite note "f2" 4 ∷ []
unfolding toggle_favorite cleanup_favorites
cleaned = refl

is_favorite-toggle_favorite_example :
    is_favorite (toggle_favorite song "f3" 5 starred) "/home/ann/music/a.mp3"
    ≡ not (is_favorite starred "/home/ann/music/a.mp3")
is_favorite-toggle_favorite_example =
    is_favorite-toggle_favorite song "f3" 5 starred "/home/ann/music/a.mp3" (tt, tt)
