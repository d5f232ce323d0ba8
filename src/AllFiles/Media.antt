-- ===== src/AllFiles/Media.antt =====
-- App.tsx: the media type of a file goes by its extension in any case.
use Prim.Native.Char.{code}
use wormhole.Texts.{glue}
use wormhole.Texts.Laws.{Every}
use wormhole.Paths.{text_length}
use wormhole.AllFiles.{units, last_dot, drop_units, slice_at, media_of, get_media_type}
use wormhole.Common.{
  ℕ, ◌+◌, ◌-◌, String, ◌≡◌, refl, sym, ap, ◌∙◌, Bool, true, false, not, none, some, leb, nat_eq,
  arith,
}

abbrev pub not_dot : ℕ → Bool
not_dot c = not (nat_eq c b'.')

last_dot-none : (ext : String) → Every not_dot ext → last_dot ext ≡ none
last_dot-none String.[] h = refl
last_dot-none (String.◌∷◌ c s) h =
    let plain : nat_eq (code c) b'.' ≡ false = ground (arith, h.0) in
    rw (last_dot-none s h.1, plain) refl

last_dot-glue :
    (stem ext : String)
    → Every not_dot ext
    → last_dot (glue stem (glue "." ext)) ≡ some (text_length stem)
last_dot-glue String.[] ext h = rw (last_dot-none ext h) refl
last_dot-glue (String.◌∷◌ c stem) ext h = rw (last_dot-glue stem ext h) refl

drop_units-zero : (s : String) → drop_units 0 s ≡ s
drop_units-zero String.[] = refl
drop_units-zero (String.◌∷◌ c s) =
    let small : leb (units (code c)) 0 ≡ false = ground arith in rw small refl

drop_units-glue : (s t : String) → drop_units (text_length s) (glue s t) ≡ t
drop_units-glue String.[] t = drop_units-zero t
drop_units-glue (String.◌∷◌ c s) t =
    let enough : leb (units (code c)) (units (code c) + text_length s) ≡ true = ground arith in
    let rest : units (code c) + text_length s - units (code c) ≡ text_length s = ground arith in
    rw (enough, rest) (drop_units-glue s t)

-- The type of a name is that of its last extension in lower case, if lower case keeps the length of
-- what stands before it.
pub get_media_type-glue :
    (lower : String → String) (stem ext stem' ext' : String)
    → Every not_dot ext
    → lower (glue stem (glue "." ext)) ≡ glue stem' (glue "." ext')
    → text_length stem' ≡ text_length stem
    → get_media_type lower (glue stem (glue "." ext)) ≡ media_of (glue "." ext')
unfolding get_media_type
get_media_type-glue lower stem ext stem' ext' plain lowered kept =
    ap (λ o. media_of (slice_at o (lower (glue stem (glue "." ext)))))
      (last_dot-glue stem ext plain)
    ∙ ap (λ t. media_of (drop_units (text_length stem) t)) lowered
    ∙ ap (λ n. media_of (drop_units n (glue stem' (glue "." ext')))) (sym kept)
    ∙ ap media_of (drop_units-glue stem' (glue "." ext'))
