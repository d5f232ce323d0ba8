-- ===== src/FileBrowser/Safety.antt =====
-- App.tsx: the file browser stays at the root that it was given, or below it.
use mathlib.Core.Path.{subst}
use wormhole.Paths.{text_length, get_parent_path}
use wormhole.Paths.Segments.{IsSegment, folder_path}
use wormhole.FileBrowser.Names.{
  IsName, IsUnder, IsBelow, IsUnder_of_IsBelow, append_nil, parent-IsUnder, breadcrumb-IsUnder,
  append-snoc,
}
use wormhole.FileBrowser.Runs.{
  Run, start, root_changes, loads, fails, clicks, opens, goes_up, goes_to_root, goes_to,
  asks_delete, cancels_delete, deletes, searches, requested, All-set_has, All-get_elem?,
}
use wormhole.FileBrowser.{
  FileEntry, Browser, answered, threw, Outcome, first_render, load_directory, root_path_effect,
  directory_loaded, handle_file_click, go_up, file_deleted, breadcrumb_path, filtered_files,
}
use wormhole.Common.{
  ℕ, String, ◌≡◌, ◌≢◌, sym, ap, ◌∙◌, Bool, true, false, Bool-cases, inl, inr, Option, none, some,
  leb, ◌==◌, List, [], ◌∷◌, ◌++◌, get_elem?, All, All-append, All-filter,
}

-- What holds of the browser and of the requests: they stay at the root or below it, what is listed
-- and what is about to be deleted lies below it.
abbrev pub StaysUnder : List String → List String → Browser → Type 0
StaysUnder r asked s =
    All (IsUnder r) asked
    × (IsUnder r s.current_path
        × (All (λ e. IsBelow r e.path) s.files
            × ((file : FileEntry) → s.delete_confirm ≡ some file → IsBelow r file.path)))

module _ (r asked : List String) (s : Browser) (stays : StaysUnder r asked s) where
  load_directory-StaysUnder :
      (path : String) → IsUnder r path → StaysUnder r (path ∷ asked) (load_directory s)
  unfolding load_directory
  load_directory-StaysUnder path under = let (kept, rest) = stays in ((under, kept), rest)

  loaded-StaysUnder :
      (path : String) (entries : List FileEntry)
      → IsUnder r path
      → All (λ e. IsBelow r e.path) entries
      → StaysUnder r asked (directory_loaded path (answered entries) s)
  unfolding directory_loaded
  loaded-StaysUnder path entries under below =
      let (kept, (_, (_, delete))) = stays in (kept, (under, (below, delete)))

  failed-StaysUnder :
      (path message : String) → StaysUnder r asked (directory_loaded path (threw message) s)
  unfolding directory_loaded
  failed-StaysUnder path message =
      let (kept, (at, (_, delete))) = stays in (kept, (at, (tt, delete)))

  -- A handler that asks for a folder below the root, or for none.
  abbrev Kept : Outcome → Type 0
  Kept o = StaysUnder r (requested o.1 asked) o.0

  click-StaysUnder :
      (file : FileEntry) (twice : Bool)
      → IsUnder r file.path
      → Kept (handle_file_click file twice s)
  unfolding handle_file_click load_directory
  click-StaysUnder file false under = stays
  click-StaysUnder file true under = elim (Bool-cases file.is_dir) [
    | inl dir ↦ rw dir (load_directory-StaysUnder file.path under)
    | inr plain ↦ rw plain stays
  ]

  up-StaysUnder :
      (root : String) → IsUnder r (get_parent_path s.current_path root) → Kept (go_up root s)
  unfolding go_up load_directory
  up-StaysUnder root under =
      elim (Bool-cases
        (leb (text_length root) (text_length (get_parent_path s.current_path root)))) [
          | inl long ↦ rw long (load_directory-StaysUnder _ under)
          | inr short ↦ rw short stays
        ]

  delete-StaysUnder :
      (path : String) (thrown : Option String) → IsUnder r path → Kept (file_deleted path thrown s)
  unfolding file_deleted load_directory
  delete-StaysUnder path none under =
      let (kept, (at, (files, _))) = stays in ((under, kept), (at, (files, λ file e. cc)))
  delete-StaysUnder path (some message) under = stays

-- What the backend lists of a folder: names, each at its path in the folder.
abbrev pub IsChild : List String → FileEntry → Type 0
IsChild q e = IsName e.name × (e.path ≡ folder_path (q ++ e.name ∷ []))

module _ (lower : String → String) (lists : String → List FileEntry → Type 0)
    (children : (q : List String) (entries : List FileEntry)
      → lists (folder_path q) entries
      → All (IsChild q) entries)
    (w : String) (ws : List String) (names : All IsSegment (w ∷ ws)) where
  snoc_ne : (xs : List String) (y : String) → xs ++ y ∷ [] ≢ []
  snoc_ne [] y = λ e. cc
  snoc_ne (x ∷ xs) y = λ e. cc

  below :
      (q : List String) (e : FileEntry)
      → All IsName q
      → IsChild ((w ∷ ws) ++ q) e
      → IsBelow (w ∷ ws) e.path
  below q e h (name, at) = (
    q ++ e.name ∷ [],
    (
      All-append IsName q (e.name ∷ []) h (name, tt),
      (snoc_ne q e.name, at ∙ ap folder_path (sym (append-snoc (w ∷ ws) q e.name))),
    ),
  )

  All-below :
      (q : List String) (entries : List FileEntry)
      → All IsName q
      → All (IsChild ((w ∷ ws) ++ q)) entries
      → All (λ e. IsBelow (w ∷ ws) e.path) entries
  All-below q [] h k = tt
  All-below q (e ∷ entries) h k = (below q e h k.0, All-below q entries h k.1)

  listed :
      (path : String) (entries : List FileEntry)
      → IsUnder (w ∷ ws) path
      → lists path entries
      → All (λ e. IsBelow (w ∷ ws) e.path) entries
  listed path entries (q, (h, e)) l =
      All-below q entries h (children ((w ∷ ws) ++ q) entries (subst (λ p. lists p entries) e l))

  shown :
      (s : Browser) (i : ℕ) (file : FileEntry)
      → All (λ e. IsBelow (w ∷ ws) e.path) s.files
      → get_elem? (filtered_files lower s) i ≡ some file
      → IsBelow (w ∷ ws) file.path
  unfolding filtered_files
  shown s i file h =
      All-get_elem? (λ e. IsBelow (w ∷ ws) e.path) (filtered_files lower s) i file
        (All-filter (λ e. IsBelow (w ∷ ws) e.path) _ s.files h)

  at_root : IsUnder (w ∷ ws) (folder_path (w ∷ ws))
  at_root = ([], (tt, ap folder_path (sym (append_nil (w ∷ ws)))))

  root-StaysUnder :
      (root : String)
      → root ≡ folder_path (w ∷ ws)
      → (asked : List String) (s : Browser) → StaysUnder (w ∷ ws) asked s
      → StaysUnder
          (w ∷ ws)
          (requested (root_path_effect root s).1 asked)
          (root_path_effect root s).0
  unfolding root_path_effect
  root-StaysUnder root is_top asked s h = elim (Bool-cases (root == "")) [
    | inl none_given ↦ rw none_given h
    | inr given ↦ rw given (
        load_directory-StaysUnder (w ∷ ws) asked s h root
          (subst (IsUnder (w ∷ ws)) (sym is_top) at_root))
  ]

  first-StaysUnder :
      (root : String) → root ≡ folder_path (w ∷ ws) → StaysUnder (w ∷ ws) [] (first_render root)
  first-StaysUnder root is_top =
      (tt, (subst (IsUnder (w ∷ ws)) (sym is_top) at_root, (tt, λ file e. cc)))

  same_root :
      {current : String} {asked : List String} {s : Browser}
      → Run lower (λ root. root ≡ folder_path (w ∷ ws)) lists current asked s
      → current ≡ folder_path (w ∷ ws)
  same_root (start is_top) = is_top
  same_root (root_changes is_top run) = is_top
  same_root (loads path entries run has l) = same_root run
  same_root (fails path message run has) = same_root run
  same_root (clicks file twice i run at) = same_root run
  same_root (opens file i run at dir) = same_root run
  same_root (goes_up run) = same_root run
  same_root (goes_to_root run) = same_root run
  same_root (goes_to n run) = same_root run
  same_root (asks_delete file i run at) = same_root run
  same_root (cancels_delete run) = same_root run
  same_root (deletes path thrown run has) = same_root run
  same_root (searches query run) = same_root run

  is_file :
      (file f : FileEntry)
      → IsBelow (w ∷ ws) file.path
      → some file ≡ some f
      → IsBelow (w ∷ ws) f.path
  is_file file f h e = let same : file ≡ f = cc in subst (λ g. IsBelow (w ∷ ws) g.path) same h

  -- In every run of a file browser that is given one root only, every folder that is shown or asked for
  -- is the root or lies below it, every listed file lies below it, and so does the file that the
  -- confirmation of a deletion is about, which is never the root itself. The paths are absolute, the
  -- root is not `/`, no name holds a separator or starts like a drive, and the backend lists what is in
  -- a folder.
  pub Run-StaysUnder :
      {current : String} {asked : List String} {s : Browser}
      → Run lower (λ root. root ≡ folder_path (w ∷ ws)) lists current asked s
      → StaysUnder (w ∷ ws) asked s
  Run-StaysUnder (start {root} is_top) =
      root-StaysUnder root is_top [] (first_render root) (first-StaysUnder root is_top)
  Run-StaysUnder (root_changes {asked} {s} {root} is_top run) =
      root-StaysUnder root is_top asked s (Run-StaysUnder run)
  Run-StaysUnder (loads {asked} {s} path entries run has l) =
      let h = Run-StaysUnder run in
      let under = All-set_has (IsUnder (w ∷ ws)) path asked h.0 has in
      loaded-StaysUnder (w ∷ ws) asked s h path entries under (listed path entries under l)
  Run-StaysUnder (fails {asked} {s} path message run has) =
      failed-StaysUnder (w ∷ ws) asked s (Run-StaysUnder run) path message
  Run-StaysUnder (clicks {asked} {s} file twice i run at) =
      let h = Run-StaysUnder run in
      click-StaysUnder (w ∷ ws) asked s h file twice
        (IsUnder_of_IsBelow (w ∷ ws) file.path (shown s i file h.1.1.0 at))
  Run-StaysUnder (opens {asked} {s} file i run at dir) =
      let h = Run-StaysUnder run in
      load_directory-StaysUnder (w ∷ ws) asked s h file.path
        (IsUnder_of_IsBelow (w ∷ ws) file.path (shown s i file h.1.1.0 at))
  Run-StaysUnder (goes_up {root} {asked} {s} run) =
      let h = Run-StaysUnder run in
      up-StaysUnder (w ∷ ws) asked s h root (
        subst (λ t. IsUnder (w ∷ ws) (get_parent_path s.current_path t)) (sym (same_root run))
          (parent-IsUnder w ws names s.current_path h.1.0))
  Run-StaysUnder (goes_to_root {root} {asked} {s} run) =
      load_directory-StaysUnder (w ∷ ws) asked s (Run-StaysUnder run) root
        (subst (IsUnder (w ∷ ws)) (sym (same_root run)) at_root)
  Run-StaysUnder (goes_to {root} {asked} {s} n run) =
      let h = Run-StaysUnder run in
      load_directory-StaysUnder (w ∷ ws) asked s h (breadcrumb_path root n s) (
        subst (λ t. IsUnder (w ∷ ws) (breadcrumb_path t n s)) (sym (same_root run))
          (breadcrumb-IsUnder w ws names n s h.1.0))
  Run-StaysUnder (asks_delete {asked} {s} file i run at) =
      let (kept, (here, (files, _))) = Run-StaysUnder run in
      (kept, (here, (files, λ f. is_file file f (shown s i file files at))))
  Run-StaysUnder (cancels_delete run) =
      let (kept, (here, (files, _))) = Run-StaysUnder run in (kept, (here, (files, λ f e. cc)))
  Run-StaysUnder (deletes {asked} {s} current_path thrown run has) =
      let h = Run-StaysUnder run in
      delete-StaysUnder (w ∷ ws) asked s h current_path thrown
        (All-set_has (IsUnder (w ∷ ws)) current_path asked h.0 has)
  Run-StaysUnder (searches query run) = Run-StaysUnder run
