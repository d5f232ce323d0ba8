-- ===== src/FileBrowser/Names.antt =====
-- App.tsx: the folders that the buttons of the file browser lead to lie at its root or below it.
use mathlib.Core.Path.{subst}
use wormhole.Paths.{get_parent_path, get_relative_path, join_path, has_drive}
use wormhole.Paths.Segments.{IsSegment, folder_path}
use wormhole.Paths.Folders.{
  get_parent_path-folder_path, get_relative_path-folder_path, join_path-get_relative_path,
}
use wormhole.FileBrowser.{Browser, breadcrumb_path}
use wormhole.Common.{
  ℕ, String, ◌≡◌, ◌≢◌, refl, sym, ap, ◌∙◌, false, ◌⊎◌, inl, inr, List, [], ◌∷◌, ◌++◌, take, All,
  All-take, any,
}

-- A name that neither holds a separator nor starts like a drive.
abbrev pub IsName : String → Type 0
IsName w = IsSegment w × (has_drive w ≡ false)

-- The root of these names, or a folder or file below it.
abbrev pub IsUnder : List String → String → Type 0
IsUnder r p = (rest : List String) × (All IsName rest × (p ≡ folder_path (r ++ rest)))

abbrev pub IsBelow : List String → String → Type 0
IsBelow r p =
    (rest : List String) × (All IsName rest × ((rest ≢ []) × (p ≡ folder_path (r ++ rest))))

snoc_view :
    (xs : List String) → (xs ≡ []) ⊎ ((ys : List String) × ((y : String) × (xs ≡ ys ++ y ∷ [])))
snoc_view [] = inl refl
snoc_view (x ∷ xs) = elim (snoc_view xs) [
  | inl e ↦ inr ([], (x, ap (λ t. x ∷ t) e))
  | inr (ys, (y, e)) ↦ inr (x ∷ ys, (y, ap (λ t. x ∷ t) e))
]

pub append-snoc : (r ys : List String) (y : String) → r ++ (ys ++ y ∷ []) ≡ (r ++ ys) ++ y ∷ []
append-snoc [] ys y = refl
append-snoc (x ∷ r) ys y = ap (λ t. x ∷ t) (append-snoc r ys y)

pub init_All :
    {A : Type 0} (P : A → Type 0) (ys : List A) (y : A) → All P (ys ++ y ∷ []) → All P ys × P y
init_All P [] y h = (tt, h.0)
init_All P (x ∷ ys) y h = let (front, back) = init_All P ys y h.1 in ((h.0, front), back)

pub segments : (xs : List String) → All IsName xs → All IsSegment xs
segments [] h = tt
segments (x ∷ xs) h = (h.0.0, segments xs h.1)

no_drives : (xs : List String) → All IsName xs → any has_drive xs ≡ false
no_drives [] h = refl
no_drives (x ∷ xs) h = rw (h.0.1, no_drives xs h.1) refl

pub append_nil : (xs : List String) → xs ++ [] ≡ xs
append_nil [] = refl
append_nil (x ∷ xs) = ap (λ t. x ∷ t) (append_nil xs)

pub IsUnder_of_IsBelow : (r : List String) (p : String) → IsBelow r p → IsUnder r p
IsUnder_of_IsBelow r p (rest, (h, (ne, e))) = (rest, (h, e))

module _ (w : String) (ws : List String) (names : All IsSegment (w ∷ ws)) where
  pub parent-IsUnder :
      (p : String)
      → IsUnder (w ∷ ws) p
      → IsUnder (w ∷ ws) (get_parent_path p (folder_path (w ∷ ws)))
  parent-IsUnder p (rest, (h, e)) = elim (snoc_view rest) [
    | inl none_left ↦ (
      [],
      (
        tt,
        ap (λ t. get_parent_path t (folder_path (w ∷ ws)))
              (e
                ∙ ap (λ t. folder_path ((w ∷ ws) ++ t)) none_left
                ∙ ap folder_path (append_nil (w ∷ ws)))
            ∙ (get_parent_path-folder_path (w ∷ ws) [] "a" names tt (refl, (refl, tt))).1
            ∙ ap folder_path (sym (append_nil (w ∷ ws))),
      ),
    )
    | inr (ys, (y, same)) ↦
        let (front, back) = init_All IsName ys y (subst (All IsName) same h) in
        (
          ys,
          (
            front,
            ap (λ t. get_parent_path t (folder_path (w ∷ ws)))
                  (e
                    ∙ ap (λ t. folder_path ((w ∷ ws) ++ t)) same
                    ∙ ap folder_path (append-snoc (w ∷ ws) ys y))
                ∙ (get_parent_path-folder_path (w ∷ ws) ys y names (segments ys front) back.0).0,
          ),
        )
  ]

  pub breadcrumb-IsUnder :
      (n : ℕ) (s : Browser)
      → IsUnder (w ∷ ws) s.current_path
      → IsUnder (w ∷ ws) (breadcrumb_path (folder_path (w ∷ ws)) n s)
  unfolding breadcrumb_path
  breadcrumb-IsUnder n s (rest, (h, e)) =
      let found =
        ap (λ t. get_relative_path t (folder_path (w ∷ ws))) e
        ∙ get_relative_path-folder_path (w ∷ ws) rest (segments rest h) in
      let some_names = All-take IsName n rest h in
      (
        take n rest,
        (
          some_names,
          ap (λ t. join_path (folder_path (w ∷ ws) ∷ take n t)) found
              ∙ (join_path-get_relative_path w ws (take n rest) [] names
                  (segments (take n rest) some_names) tt (no_drives (take n rest) some_names)).1,
        ),
      )
