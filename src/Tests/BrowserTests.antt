-- ===== src/Tests/BrowserTests.antt =====
-- A file browser in which a folder is opened, and the paths of its folders.
use wormhole.Texts.{glue}
use wormhole.Paths.{join_path}
use wormhole.Paths.Segments.{folder_path, slashed-append}
use wormhole.FileBrowser.{
  FileEntry, Browser, answered, first_render, load_directory, root_path_effect, directory_loaded,
  handle_file_click, filtered_files,
}
use wormhole.FileBrowser.Runs.{Run, start, loads, clicks, requested}
use wormhole.FileBrowser.Safety.{IsChild, StaysUnder, Run-StaysUnder}
use wormhole.FileBrowser.Selection.{ShowsListing, Run-ShowsListing}
use wormhole.Common.{String, ◌≡◌, refl, sym, ap, ◌∙◌, true, false, some, List, [], ◌∷◌, All, ◌==◌}

abbrev notes : FileEntry
notes = record {
  name = "notes";
  path = "/srv/docs/notes";
  is_dir = true;
  size = 0;
  modified = some 7;
}

abbrev root : String
root = "/srv/docs"

abbrev same_case : String → String
same_case s = s

-- The backend knows the root only, with one folder in it.
abbrev Lists : String → List FileEntry → Type 0
Lists path entries = (path ≡ root) × (entries ≡ notes ∷ [])

children :
    (q : List String) (entries : List FileEntry)
    → Lists (folder_path q) entries
    → All (IsChild q) entries
children [] entries (at, e) = let dead : true ≡ false = ap (λ s. s == "/") at in cc
children (x ∷ q) entries (at, e) = rw e (
  (
    ((refl, (refl, (refl, (refl, (refl, (refl, tt)))))), refl),
    sym (slashed-append (x ∷ q) ("notes" ∷ []) ∙ ap (λ t. glue t "/notes") at),
  ),
  tt,
)

abbrev at_root : Browser
at_root = directory_loaded root (answered (notes ∷ [])) (load_directory (first_render root))

listing_shown : Run same_case (λ t. t ≡ root) Lists root (root ∷ []) at_root
unfolding root_path_effect
listing_shown = loads root (notes ∷ []) (start refl) refl (refl, refl)

folder_opened :
    Run same_case
      (λ t. t ≡ root)
      Lists
      root
      (requested (handle_file_click notes true at_root).1 (root ∷ []))
      (handle_file_click notes true at_root).0
unfolding filtered_files directory_loaded load_directory
folder_opened = clicks notes true 0 listing_shown refl

asked_for :
    requested (handle_file_click notes true at_root).1 (root ∷ []) ≡ "/srv/docs/notes" ∷ root ∷ []
unfolding handle_file_click
asked_for = refl

Run-StaysUnder_example :
    StaysUnder
      ("srv" ∷ "docs" ∷ [])
      (requested (handle_file_click notes true at_root).1 (root ∷ []))
      (handle_file_click notes true at_root).0
Run-StaysUnder_example =
    Run-StaysUnder same_case Lists children "srv" ("docs" ∷ [])
      ((refl, (refl, (refl, (refl, tt)))), ((refl, (refl, (refl, (refl, (refl, tt))))), tt))
      folder_opened

-- The root changes to another folder while the request of the first one is open: its answer comes
-- last, so the browser of the new root shows the listing of the old one.
late_answer :
    ((root_path_effect "/srv/music" at_root).1 ≡ some "/srv/music")
    × ((directory_loaded root (answered (notes ∷ [])) (
          directory_loaded "/srv/music"
            (answered [])
            (root_path_effect "/srv/music" at_root).0)).current_path
        ≡ root)
unfolding root_path_effect directory_loaded
late_answer = (refl, refl)

Run-ShowsListing_example : ShowsListing Lists at_root
Run-ShowsListing_example =
    Run-ShowsListing same_case (λ t. t ≡ root) Lists root (root ∷ []) at_root listing_shown

-- A name that starts like a drive turns the separator of the whole path.
drive_name : join_path ("/srv" ∷ "a:b" ∷ "c" ∷ []) ≡ "/srv\\a:b\\c"
unfolding join_path
drive_name = refl
