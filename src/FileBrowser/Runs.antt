-- ===== src/FileBrowser/Runs.antt =====
-- App.tsx: every sequence of the actions in a file browser and the answers of the backend.
use mathlib.Core.Path.{subst}
use wormhole.FileBrowser.{
  FileEntry, Browser, answered, threw, first_render, load_directory, root_path_effect,
  directory_loaded, set_has, handle_file_click, go_up, file_deleted, set_delete_confirm,
  set_search_query, breadcrumb_path, filtered_files,
}
use wormhole.Common.{
  ℕ, zero, suc, ◌||◌, String, ◌≡◌, sym, ap, ◌∙◌, Bool, true, Bool-cases, inl, inr, Option, none,
  some, List, [], ◌∷◌, get_elem?, All, eq_iff, ◌==◌,
}

-- A handler's request is put before those made so far.
abbrev pub requested : Option String → List String → List String
requested none asked = asked
requested (some path) asked = path ∷ asked

-- A browser from its first rendering on, with the root that it is given last. `given` says which roots
-- it may be given, and `lists path entries` that the backend may answer a request of the path with the
-- entries; `asked` is what has been requested.
pub data Run (lower : String → String) (given : String → Type 0)
    (lists : String → List FileEntry → Type 0) : String → List String → Browser → Type 0 where
  start :
      {root : String}
      → given root
      → Run lower given lists root
          (requested (root_path_effect root (first_render root)).1 [])
          (root_path_effect root (first_render root)).0
  root_changes :
      {before : String} {asked : List String} {s : Browser} {root : String}
      → given root
      → Run lower given lists before asked s
      → Run lower given lists root
          (requested (root_path_effect root s).1 asked)
          (root_path_effect root s).0
  loads :
      {root : String} {asked : List String} {s : Browser} (path : String) (entries : List FileEntry)
      → Run lower given lists root asked s
      → set_has path asked ≡ true
      → lists path entries
      → Run lower given lists root asked (directory_loaded path (answered entries) s)
  fails :
      {root : String} {asked : List String} {s : Browser} (path message : String)
      → Run lower given lists root asked s
      → set_has path asked ≡ true
      → Run lower given lists root asked (directory_loaded path (threw message) s)
  clicks :
      {root : String} {asked : List String} {s : Browser} (file : FileEntry) (twice : Bool) (i : ℕ)
      → Run lower given lists root asked s
      → get_elem? (filtered_files lower s) i ≡ some file
      → Run lower given lists root
          (requested (handle_file_click file twice s).1 asked)
          (handle_file_click file twice s).0
  opens :
      {root : String} {asked : List String} {s : Browser} (file : FileEntry) (i : ℕ)
      → Run lower given lists root asked s
      → get_elem? (filtered_files lower s) i ≡ some file
      → file.is_dir ≡ true
      → Run lower given lists root (file.path ∷ asked) (load_directory s)
  goes_up :
      {root : String} {asked : List String} {s : Browser}
      → Run lower given lists root asked s
      → Run lower given lists root (requested (go_up root s).1 asked) (go_up root s).0
  goes_to_root :
      {root : String} {asked : List String} {s : Browser}
      → Run lower given lists root asked s
      → Run lower given lists root (root ∷ asked) (load_directory s)
  goes_to :
      {root : String} {asked : List String} {s : Browser} (n : ℕ)
      → Run lower given lists root asked s
      → Run lower given lists root (breadcrumb_path root n s ∷ asked) (load_directory s)
  asks_delete :
      {root : String} {asked : List String} {s : Browser} (file : FileEntry) (i : ℕ)
      → Run lower given lists root asked s
      → get_elem? (filtered_files lower s) i ≡ some file
      → Run lower given lists root asked (set_delete_confirm (some file) s)
  cancels_delete :
      {root : String} {asked : List String} {s : Browser}
      → Run lower given lists root asked s
      → Run lower given lists root asked (set_delete_confirm none s)
  deletes :
      {root : String} {asked : List String} {s : Browser} (current_path : String)
      (thrown : Option String)
      → Run lower given lists root asked s
      → set_has current_path asked ≡ true
      → Run lower given lists root
          (requested (file_deleted current_path thrown s).1 asked)
          (file_deleted current_path thrown s).0
  searches :
      {root : String} {asked : List String} {s : Browser} (query : String)
      → Run lower given lists root asked s
      → Run lower given lists root asked (set_search_query query s)

pub All-set_has :
    (P : String → Type 0) (a : String) (xs : List String) → All P xs → set_has a xs ≡ true → P a
All-set_has P a [] h e = cc
All-set_has P a (x ∷ xs) h e = elim (Bool-cases (x == a)) [
  | inl same ↦ subst P ((eq_iff x a).0 same) h.0
  | inr other ↦ All-set_has P a xs h.1 (sym (ap (λ b. b || set_has a xs) other) ∙ e)
]

pub All-get_elem? :
    {A : Type 0} (P : A → Type 0) (xs : List A) (i : ℕ) (a : A)
    → All P xs
    → get_elem? xs i ≡ some a
    → P a
All-get_elem? P [] i a h e = cc
All-get_elem? P (x ∷ xs) zero a h e = let same : x ≡ a = cc in subst P same h.0
All-get_elem? P (x ∷ xs) (suc i) a h e = All-get_elem? P xs i a h.1 e
