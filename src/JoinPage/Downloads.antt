-- ===== src/JoinPage/Downloads.antt =====
-- page.tsx: the asset that is offered for a platform.
use wormhole.JoinPage.{Platform, Asset, patterns, matches, first_asset, get_asset_for_platform}
use wormhole.Common.{
  String, ◌≡◌, refl, ap, Bool, false, ◌⊎◌, inl, inr, arith, none, some, Option-cases, List, [], ◌∷◌,
  ◌++◌, any, find, All,
}

-- The group whose first match is taken: no asset matches a group before it.
abbrev pub IsFirstMatch : (String → String) → List Asset → List (List String) → Asset → Type 0
IsFirstMatch lower assets groups asset =
    (earlier : List (List String)) × ((later : List (List String)) × ((group : List String)
        × ((groups ≡ earlier ++ group ∷ later)
            × (All (λ g. any (matches lower g) assets ≡ false) earlier
                × (find (matches lower group) assets ≡ some asset)))))

any_of_find-none : {A : Type 0} (p : A → Bool) (xs : List A) → find p xs ≡ none → any p xs ≡ false
any_of_find-none p [] e = refl
any_of_find-none p (x ∷ xs) e = ground (arith, any_of_find-none p xs)

first_asset-cases :
    (lower : String → String) (assets : List Asset) (groups : List (List String))
    → ((first_asset lower assets groups ≡ none)
        × All (λ g. any (matches lower g) assets ≡ false) groups)
      ⊎ ((asset : Asset) × ((first_asset lower assets groups ≡ some asset)
            × IsFirstMatch lower assets groups asset))
first_asset-cases lower assets [] = inl (refl, tt)
first_asset-cases lower assets (group ∷ groups) =
    elim (Option-cases (find (matches lower group) assets)) [
      | inl missed ↦
          let unmatched = any_of_find-none (matches lower group) assets missed in
          elim (first_asset-cases lower assets groups) [
            | inl (e, h) ↦ inl (rw missed e, (unmatched, h))
            | inr (asset, (e, (earlier, (later, (g, (split, (h, found))))))) ↦ inr (
              asset,
              (
                rw missed e,
                (
                  group ∷ earlier,
                  (later, (g, (ap (λ t. group ∷ t) split, ((unmatched, h), found)))),
                ),
              ),
            )
          ]
      | inr (asset, found) ↦
          inr (asset, (rw found refl, ([], (groups, (group, (refl, (tt, found)))))))
    ]

-- A platform gets the first asset that matches the first of its groups of patterns that any asset
-- matches; it gets none exactly if no asset matches any pattern.
get_asset_for_platform-cases :
    (lower : String → String) (assets : List Asset) (platform : Platform)
    → ((get_asset_for_platform lower assets platform ≡ none)
        × All (λ g. any (matches lower g) assets ≡ false) (patterns platform))
      ⊎ ((asset : Asset) × ((get_asset_for_platform lower assets platform ≡ some asset)
            × IsFirstMatch lower assets (patterns platform) asset))
unfolding get_asset_for_platform
get_asset_for_platform-cases lower assets platform =
    first_asset-cases lower assets (patterns platform)
