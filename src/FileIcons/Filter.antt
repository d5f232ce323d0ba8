-- ===== src/FileIcons/Filter.antt =====
-- App.tsx: the icon of a picture, film or sound and the media filter.
use Prim.Native.Char.{code}
use mathlib.Core.Path.{subst}
use wormhole.Texts.{glue}
use wormhole.Texts.Laws.{Every}
use wormhole.Paths.{text_length, split_on, last_part}
use wormhole.AllFiles.{
  MediaFilter, video, audio, media_of, get_media_type, listed, image as picture,
}
use wormhole.AllFiles.Media.{not_dot, get_media_type-glue}
use wormhole.FileIcons.{
  Icon, image, film, music, archive, code_file, file_text, plain_file, is_dot, image_icons,
  film_icons, music_icons, icon_of, extension, get_file_icon,
}
use wormhole.Common.{
  String, ◌≡◌, refl, sym, ap, ◌∙◌, Bool, true, false, ◌||◌, Bool-cases, inl, inr, some, List, [],
  ◌∷◌, ◌++◌, ◌==◌, eq_iff, nat_eq, arith, if◌then◌else◌, All,
}

split-plain : (ext : String) → Every not_dot ext → split_on is_dot ext ≡ ext ∷ []
split-plain String.[] h = refl
split-plain (String.◌∷◌ c s) h =
    let plain : nat_eq (code c) b'.' ≡ false = ground (arith, h.0) in
    rw (plain, split-plain s h.1) refl

-- A name with an extension has at least two parts, the last of which is the extension.
split-glue :
    (stem ext : String)
    → Every not_dot ext
    → (w : String) × ((ws : List String) × (split_on is_dot (glue stem (glue "." ext))
          ≡ w ∷ (ws ++ ext ∷ [])))
split-glue String.[] ext h = ("", ([], ap (λ t. "" ∷ t) (split-plain ext h)))
split-glue (String.◌∷◌ c stem) ext h =
    let (w, (ws, e)) = split-glue stem ext h in
    elim (Bool-cases (nat_eq (code c) b'.')) [
      | inl dot ↦ ("", (w ∷ ws, rw (dot, e) refl))
      | inr plain ↦ (String.◌∷◌ c w, (ws, rw (plain, e) refl))
    ]

last_of : (w ext : String) (ws : List String) → last_part (w ∷ (ws ++ ext ∷ [])) ≡ some ext
last_of w ext [] = refl
last_of w ext (v ∷ ws) = last_of v ext ws

extension-glue :
    (lower : String → String) (stem ext : String)
    → Every not_dot ext
    → extension lower (glue stem (glue "." ext)) ≡ lower ext
extension-glue lower stem ext h =
    let (w, (ws, e)) = split-glue stem ext h in rw (e, last_of w ext ws, extension) refl

-- What holds of all listed extensions holds of an extension that is listed.
of_listed :
    (P : String → Type 0) (exts : List String) (ext : String)
    → listed exts ext ≡ true
    → All P exts
    → P ext
of_listed P [] ext h all = cc
of_listed P (x ∷ xs) ext h all = elim (Bool-cases (x == ext)) [
  | inl same ↦ subst P ((eq_iff x ext).0 same) all.0
  | inr other ↦ of_listed P xs ext (sym (ap (λ b. b || listed xs ext) other) ∙ h) all.1
]

-- The media filter that shows the files of an icon.
pub data Shows : Icon → MediaFilter → Type 0 where
  pictures : Shows image picture
  films : Shows film video
  sounds : Shows music audio

-- The tests of `getFileIcon` in their order.
abbrev pick : (a b c d e f : Bool) → Icon
pick a b c d e f =
    if a
    then image
    else if b
    then film
    else if c
    then music
    else if d
    then archive
    else if e
    then code_file
    else if f
    then file_text
    else plain_file

pick-image : (a b c d e f : Bool) → pick a b c d e f ≡ image → a ≡ true
pick-image true b c d e f h = refl
pick-image false b c d e f h = ground arith

pick-film : (a b c d e f : Bool) → pick a b c d e f ≡ film → b ≡ true
pick-film a true c d e f h = refl
pick-film a false c d e f h = ground arith

pick-music : (a b c d e f : Bool) → pick a b c d e f ≡ music → c ≡ true
pick-music a b true d e f h = refl
pick-music a b false d e f h = ground arith

icon-media :
    (icon : Icon) (filter : MediaFilter) (ext : String)
    → Shows icon filter
    → icon_of ext ≡ icon
    → media_of (glue "." ext) ≡ filter
icon-media _ _ ext pictures h =
    of_listed (λ e. media_of (glue "." e) ≡ picture) image_icons ext (pick-image _ _ _ _ _ _ h)
      (refl, (refl, (refl, (refl, (refl, (refl, (refl, tt)))))))
icon-media _ _ ext films h =
    of_listed (λ e. media_of (glue "." e) ≡ video) film_icons ext (pick-film _ _ _ _ _ _ h)
      (refl, (refl, (refl, (refl, (refl, tt)))))
icon-media _ _ ext sounds h =
    of_listed (λ e. media_of (glue "." e) ≡ audio) music_icons ext (pick-music _ _ _ _ _ _ h)
      (refl, (refl, (refl, (refl, (refl, tt)))))

-- A file whose name has an extension and that has the icon of a picture, a film or a sound is of the
-- media type of that icon, so the filter of that type shows it. Lower case is taken of the extension
-- and of what stands before it apart, and keeps the length of the latter.
get_file_icon-get_media_type :
    (lower : String → String) (stem ext stem' : String) (icon : Icon) (filter : MediaFilter)
    → Every not_dot ext
    → lower (glue stem (glue "." ext)) ≡ glue stem' (glue "." (lower ext))
    → text_length stem' ≡ text_length stem
    → Shows icon filter
    → get_file_icon lower (glue stem (glue "." ext)) false ≡ icon
    → get_media_type lower (glue stem (glue "." ext)) ≡ filter
unfolding get_file_icon
get_file_icon-get_media_type lower stem ext stem' icon filter plain lowered kept shows h =
    get_media_type-glue lower stem ext stem' (lower ext) plain lowered kept
    ∙ icon-media icon filter (lower ext) shows
        (ap icon_of (sym (extension-glue lower stem ext plain)) ∙ h)
