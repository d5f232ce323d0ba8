-- ===== src/Paths/Segments.antt =====
-- Absolute paths as lists of names, and what taking them apart gives.
use Prim.Native.Char.{code}
use Prim.Native.String
use wormhole.Texts.{glue, is_empty}
use wormhole.Texts.Laws.{Every, append-eq-glue, glue_assoc, false_of_not}
use wormhole.Paths.{split_on, is_separator, path_parts, has_drive, join_with, pop, text_length}
use wormhole.Common.{
  ◌+◌, ◌<◌, ◌≤◌, String, ◌≡◌, refl, sym, ap, ◌∙◌, true, false, Bool-cases, inl, inr, arith, not,
  List, [], ◌∷◌, ◌++◌, All, filter, ◌==◌, eq_iff,
}

-- A name between two separators.
abbrev pub IsSegment : String → Type 0
IsSegment w = (is_empty w ≡ false) × Every (λ c. not (is_separator c)) w

-- The names, each behind a slash.
abbrev pub slashed : List String → String
slashed [] = ""
slashed (w ∷ ws) = glue "/" (glue w (slashed ws))

-- The absolute path of a folder, given by the names on the way to it.
abbrev pub folder_path : List String → String
folder_path [] = "/"
folder_path (w ∷ ws) = slashed (w ∷ ws)

split_on-glue :
    (w : String) (ws : List String)
    → Every (λ c. not (is_separator c)) w
    → All IsSegment ws
    → split_on is_separator (glue w (slashed ws)) ≡ w ∷ ws
split_on-glue String.[] [] h k = refl
split_on-glue String.[] (v ∷ vs) h k = ap (λ t. "" ∷ t) (split_on-glue v vs k.0.1 k.1)
split_on-glue (String.◌∷◌ c w) ws h k =
    rw (false_of_not (is_separator (code c)) h.0, split_on-glue w ws h.1 k) refl

pub nonempty-ne : (w : String) → is_empty w ≡ false → (w == "") ≡ false
nonempty-ne w h = elim (Bool-cases (w == "")) [
  | inl e ↦
      let empty : w ≡ "" = (eq_iff w "").0 e in
      let dead : false ≡ true = sym h ∙ ap is_empty empty in cc
  | inr e ↦ e
]

pub filter_names : (ws : List String) → All IsSegment ws → filter (λ w. not (w == "")) ws ≡ ws
filter_names [] h = refl
filter_names (w ∷ ws) h = rw (nonempty-ne w h.0.0, filter_names ws h.1) refl

pub path_parts-slashed : (ws : List String) → All IsSegment ws → path_parts (slashed ws) ≡ ws
path_parts-slashed ws h =
    ap (filter (λ w. not (w == ""))) (split_on-glue "" ws tt h) ∙ filter_names ws h

pub path_parts-glue :
    (w : String) (ws : List String)
    → IsSegment w
    → All IsSegment ws
    → path_parts (glue w (slashed ws)) ≡ w ∷ ws
path_parts-glue w ws h k =
    ap (filter (λ w. not (w == ""))) (split_on-glue w ws h.1 k) ∙ filter_names (w ∷ ws) (h, k)

pub path_parts-folder_path :
    (ws : List String) → All IsSegment ws → path_parts (folder_path ws) ≡ ws
path_parts-folder_path [] h = refl
path_parts-folder_path (w ∷ ws) h = path_parts-slashed (w ∷ ws) h

pub slashed-append : (ws vs : List String) → slashed (ws ++ vs) ≡ glue (slashed ws) (slashed vs)
slashed-append [] vs = refl
slashed-append (w ∷ ws) vs =
    ap (λ t. glue "/" (glue w t)) (slashed-append ws vs)
    ∙ ap (glue "/") (sym (glue_assoc w (slashed ws) (slashed vs)))

pub glue_nil : (s : String) → glue s "" ≡ s
glue_nil String.[] = refl
glue_nil (String.◌∷◌ c s) = ap (String.◌∷◌ c) (glue_nil s)

pub join_with-slash : (ws : List String) → String.◌++◌ "/" (join_with "/" ws) ≡ folder_path ws
join_with-slash [] = refl
join_with-slash (w ∷ []) = append-eq-glue "/" w ∙ ap (glue "/") (sym (glue_nil w))
join_with-slash (w ∷ v ∷ ws) =
    append-eq-glue "/" _
    ∙ ap (glue "/") (append-eq-glue w _ ∙ ap (glue w) (join_with-slash (v ∷ ws)))

pub has_drive_slash : (s : String) → has_drive (glue "/" s) ≡ false
has_drive_slash String.[] = refl
has_drive_slash (String.◌∷◌ d s) = refl

pub has_drive-folder_path : (ws : List String) → has_drive (folder_path ws) ≡ false
has_drive-folder_path [] = refl
has_drive-folder_path (w ∷ ws) = has_drive_slash (glue w (slashed ws))

pub text_length-glue : (s t : String) → text_length (glue s t) ≡ text_length s + text_length t
text_length-glue String.[] t = omega arith
text_length-glue (String.◌∷◌ c s) t = omega (arith, text_length-glue s t)

-- A folder's path is no shorter than that of the folder it lies in.
pub text_length-le :
    (r rest : List String) → text_length (folder_path r) ≤ text_length (folder_path (r ++ rest))
text_length-le [] [] = omega arith
text_length-le [] (v ∷ vs) = omega arith
text_length-le (w ∷ ws) rest =
    let both =
      ap text_length (slashed-append (w ∷ ws) rest)
      ∙ text_length-glue (slashed (w ∷ ws)) (slashed rest) in
    omega (arith, both)

text_length-slashed :
    (w : String) (ws : List String)
    → text_length (slashed (w ∷ ws)) ≡ 1 + (text_length w + text_length (slashed ws))
text_length-slashed w ws =
    text_length-glue "/" (glue w (slashed ws)) ∙ ap (◌+◌ 1) (text_length-glue w (slashed ws))

slashed-pop :
    (w : String) (ws : List String)
    → text_length (slashed (pop (w ∷ ws))) < text_length (slashed (w ∷ ws))
slashed-pop w [] = omega (arith, text_length-slashed w [])
slashed-pop w (v ∷ ws) =
    omega (
      arith,
      slashed-pop v ws,
      text_length-slashed w (v ∷ ws),
      text_length-slashed w (pop (v ∷ ws)),
    )

pub text_length-pop :
    (w v : String) (ws : List String)
    → text_length (folder_path (pop (w ∷ v ∷ ws))) < text_length (folder_path (w ∷ v ∷ ws))
text_length-pop w v ws = slashed-pop w (v ∷ ws)
