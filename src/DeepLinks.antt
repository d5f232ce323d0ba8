-- ===== src/DeepLinks.antt =====
-- App.tsx: the links with which the system opens the application. `upper` is `toUpperCase` of a
-- character outside ASCII.
pub mod HandOver
use Prim.Native.Char.{Char}
use wormhole.JoinCode.{extract_join_code}
use wormhole.Session.{Session, on_deep_link_join}
use wormhole.Common.{String, Option, none, some, List, [], ◌∷◌, truthy}

abbrev pub code_opened : Option String → Session → Session
code_opened none s = s
code_opened (some code) s = on_deep_link_join code s

-- The callback of `onOpenUrl`; the application stays mounted.
unfoldable pub on_open_url : (Char → String) → List String → Session → Session
unfolding on_deep_link_join
on_open_url upper [] s = s
on_open_url upper (url ∷ urls) s =
    on_open_url upper urls (code_opened (truthy (extract_join_code upper url)) s)
