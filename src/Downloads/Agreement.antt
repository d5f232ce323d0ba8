-- ===== src/Downloads/Agreement.antt =====
-- The home page and the pages of the platforms: which of them have a download to offer.
use wormhole.Texts.{includes}
use mathlib.Core.Option
use wormhole.JoinPage.{
  Platform, mac, windows, linux, unknown, Asset, matches, first_asset, asset_or,
  get_asset_for_platform,
}
use wormhole.Downloads.{
  ReleaseAsset, home_patterns, or_asset, named, matches_group, first_of_groups,
  home_asset_for_platform, dmg_asset, is_universal, installer_asset, app_image_asset, deb_asset,
}
use wormhole.Common.{
  String, ◌≡◌, refl, sym, ap, ◌∙◌, Bool, false, ◌&&◌, ◌||◌, Bool-cases, inl, inr, Option, none,
  some, is_some, List, [], ◌∷◌, map, any, find, All, any-find, arith,
}

is_some-or_asset : (a b : Option ReleaseAsset) → is_some (or_asset a b) ≡ (is_some a || is_some b)
is_some-or_asset none b = refl
is_some-or_asset (some x) b = refl

any-or :
    (p q : ReleaseAsset → Bool) (xs : List ReleaseAsset)
    → any (λ x. p x || q x) xs ≡ (any p xs || any q xs)
any-or p q [] = refl
any-or p q (x ∷ xs) = ground (arith, any-or p q xs)

any-and :
    (p q : ReleaseAsset → Bool) (xs : List ReleaseAsset)
    → (any (λ x. p x && q x) xs || any p xs) ≡ any p xs
any-and p q [] = refl
any-and p q (x ∷ xs) = ground (arith, any-and p q xs)

any-ext :
    (p q : ReleaseAsset → Bool) (xs : List ReleaseAsset)
    → ((x : ReleaseAsset) → p x ≡ q x)
    → any p xs ≡ any q xs
any-ext p q [] same = refl
any-ext p q (x ∷ xs) same = rw (same x, any-ext p q xs same) refl

-- Some asset's name has one of the texts.
abbrev pub offers : (String → String) → List ReleaseAsset → List String → Bool
offers lower assets [] = false
offers lower assets (part ∷ parts) = any (named lower part) assets || offers lower assets parts

group_offers :
    (lower : String → String) (assets : List ReleaseAsset) (group : List String)
    → All (λ p. lower p ≡ p) group
    → is_some (find (matches_group lower group) assets) ≡ offers lower assets group
group_offers lower assets group fixed =
    sym (any-find (matches_group lower group) assets) ∙ parts group fixed
  where
    parts :
        (group : List String)
        → All (λ p. lower p ≡ p) group
        → any (matches_group lower group) assets ≡ offers lower assets group
    parts [] h = never assets
      where
        never : (xs : List ReleaseAsset) → any (matches_group lower []) xs ≡ false
        never [] = refl
        never (x ∷ xs) = never xs
    parts (part ∷ rest) h =
        any-or (λ a. includes (lower a.name) (lower part)) (matches_group lower rest) assets
        ∙ ap
            (λ t.
              any (λ a. includes (lower a.name) t) assets || any (matches_group lower rest) assets)
            h.0
        ∙ ap (λ b. any (named lower part) assets || b) (parts rest h.1)

-- The texts that the three pages look for, all of them in lower case.
abbrev pub looked_for : List String
looked_for =
    ".dmg" ∷ "macos" ∷ "darwin" ∷ "aarch64" ∷ "arm64" ∷ "-setup.exe" ∷ ".msi" ∷ ".exe" ∷ ".appimage"
    ∷ ".deb" ∷ ".rpm" ∷ []

module _ (lower : String → String) (assets : List ReleaseAsset) where
  dmg_offers : is_some (dmg_asset lower assets) ≡ offers lower assets (".dmg" ∷ [])
  unfolding dmg_asset
  dmg_offers =
      is_some-or_asset _ _
      ∙ ap (λ b. b || is_some (find (named lower ".dmg") assets))
          (sym (any-find (λ a. named lower ".dmg" a && is_universal lower a) assets))
      ∙ ap (λ b. any (λ a. named lower ".dmg" a && is_universal lower a) assets || b)
          (sym (any-find (named lower ".dmg") assets))
      ∙ any-and (named lower ".dmg") (is_universal lower) assets
      ∙ ground arith

  installer_offers :
      is_some (installer_asset lower assets)
      ≡ offers lower assets ("-setup.exe" ∷ ".msi" ∷ ".exe" ∷ [])
  unfolding installer_asset
  installer_offers = ground (
    arith,
    is_some-or_asset (find (named lower "-setup.exe") assets)
        (or_asset (find (named lower ".msi") assets) (find (named lower ".exe") assets)),
    is_some-or_asset (find (named lower ".msi") assets) (find (named lower ".exe") assets),
    any-find (named lower "-setup.exe") assets,
    any-find (named lower ".msi") assets,
    any-find (named lower ".exe") assets,
  )

  groups_offer :
      (groups : List (List String))
      → All (All (λ p. lower p ≡ p)) groups
      → is_some (first_of_groups lower assets groups) ≡ any (offers lower assets) groups
  groups_offer [] h = refl
  groups_offer (group ∷ groups) h =
      is_some-or_asset _ _
      ∙ ap (λ b. b || is_some (first_of_groups lower assets groups))
          (group_offers lower assets group h.0)
      ∙ ap (λ b. offers lower assets group || b) (groups_offer groups h.1)

-- What the join page knows of an asset.
abbrev pub to_asset : ReleaseAsset → Asset
to_asset a = record { name = a.name; browser_download_url = a.browser_download_url }

find-to_asset :
    (lower : String → String) (group : List String) (assets : List ReleaseAsset)
    → find (matches lower group) (map to_asset assets)
      ≡ Option.map to_asset (find (matches_group lower group) assets)
find-to_asset lower group [] = refl
find-to_asset lower group (a ∷ assets) = elim (Bool-cases (matches_group lower group a)) [
  | inl e ↦ rw e refl
  | inr e ↦ rw e (find-to_asset lower group assets)
]

or-to_asset :
    (a b : Option ReleaseAsset)
    → asset_or (Option.map to_asset a) (Option.map to_asset b) ≡ Option.map to_asset (or_asset a b)
or-to_asset none b = refl
or-to_asset (some x) b = refl

groups-to_asset :
    (lower : String → String) (assets : List ReleaseAsset) (groups : List (List String))
    → first_asset lower (map to_asset assets) groups
      ≡ Option.map to_asset (first_of_groups lower assets groups)
groups-to_asset lower assets [] = refl
groups-to_asset lower assets (group ∷ groups) =
    rw (find-to_asset lower group assets, groups-to_asset lower assets groups)
      (or-to_asset (find (matches_group lower group) assets) (first_of_groups lower assets groups))

module _ (lower : String → String) (assets : List ReleaseAsset) where
  same_asset :
      (platform : Platform)
      → get_asset_for_platform lower (map to_asset assets) platform
        ≡ Option.map to_asset (home_asset_for_platform lower assets platform)
  unfolding get_asset_for_platform home_asset_for_platform
  same_asset mac = groups-to_asset lower assets (home_patterns mac)
  same_asset windows = groups-to_asset lower assets (home_patterns windows)
  same_asset linux = groups-to_asset lower assets (home_patterns linux)
  same_asset unknown = refl

  join_offers :
      (platform : Platform)
      → All (All (λ p. lower p ≡ p)) (home_patterns platform)
      → is_some (get_asset_for_platform lower (map to_asset assets) platform)
        ≡ any (offers lower assets) (home_patterns platform)
  unfolding home_asset_for_platform
  join_offers platform fixed =
      ap is_some (same_asset platform)
      ∙ some_map (home_asset_for_platform lower assets platform)
      ∙ groups_offer lower assets (home_patterns platform) fixed
    where
      some_map : (o : Option ReleaseAsset) → is_some (Option.map to_asset o) ≡ is_some o
      some_map none = refl
      some_map (some a) = refl

  -- For Windows the join page has a download to offer exactly if the page for Windows has an
  -- installer, and for Linux if the page for Linux has one of its two files or there is a package for
  -- `rpm`. For macOS it has one if the page for macOS has an image, and then also if the name of some
  -- asset speaks of a Mac or of an ARM processor, whichever platform the asset is for. Lower case
  -- leaves the texts alone that are looked for.
  pub get_asset_for_platform-pages :
      All (λ p. lower p ≡ p) looked_for
      → (is_some (get_asset_for_platform lower (map to_asset assets) windows)
          ≡ is_some (installer_asset lower assets))
        × (is_some (get_asset_for_platform lower (map to_asset assets) linux) ≡ (
            is_some (app_image_asset lower assets)
            || (is_some (deb_asset lower assets) || offers lower assets (".rpm" ∷ []))))
        × (is_some (get_asset_for_platform lower (map to_asset assets) mac) ≡ (
            is_some (dmg_asset lower assets)
            || offers lower assets ("macos" ∷ "darwin" ∷ "aarch64" ∷ "arm64" ∷ [])))
  unfolding app_image_asset deb_asset
  get_asset_for_platform-pages
        (
          dmg,
          (macos, (darwin, (aarch64, (arm64, (setup, (msi, (exe, (image, (deb, (rpm, _)))))))))),
        ) =
      (
        join_offers windows ((setup, (msi, tt)), ((exe, tt), tt))
            ∙ ground (arith, installer_offers lower assets),
        join_offers linux ((image, tt), ((deb, tt), ((rpm, tt), tt)))
            ∙ ground (
              arith,
              any-find (named lower ".appimage") assets,
              any-find (named lower ".deb") assets,
            ),
        join_offers mac ((dmg, tt), ((macos, (darwin, (aarch64, (arm64, tt)))), tt))
            ∙ ground (arith, dmg_offers lower assets),
      )
