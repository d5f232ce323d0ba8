-- ===== src/Storage.antt =====
-- What the desktop client relies on of the browser: `localStorage` and `JSON`. Both are outside the
-- repository, so they are parameters, with the laws that their documentation gives. `Text` is the
-- type of stored texts, which the client only passes on.
use wormhole.Common.{
  String, ◌≡◌, ◌≢◌, Option, none, some, Bool, false, if◌then◌else◌, is_some, refl, Bool-cases, inl,
  inr,
}

-- `setItem` throws (`none`) when the quota is met or storage is disabled.
pub record LocalStorage (Text : Type 0) : Type 1 where
  pub Store : Type 0
  pub get_item : Store → String → Option Text
  pub set_item : Store → String → Text → Option Store
  pub get_item-set_item :
      (s t : Store) (k : String) (v : Text) → set_item s k v ≡ some t → get_item t k ≡ some v
  pub get_item-set_item_ne :
      (s t : Store) (k j : String) (v : Text)
      → set_item s k v ≡ some t
      → k ≢ j
      → get_item t j ≡ get_item s j

-- `JSON.stringify` and `JSON.parse` at the type of a stored value; `parse` gives `none` where
-- `JSON.parse` throws or where reading the parsed value throws. The JSON of a value is not empty.
pub record Json (Text A : Type 0) : Type 0 where
  pub stringify : A → Text
  pub parse : Text → Option A
  pub is_empty : Text → Bool
  pub parse-stringify : (a : A) → parse (stringify a) ≡ some a
  pub is_empty-stringify : (a : A) → is_empty (stringify a) ≡ false

module _ {Text A : Type 0} (storage : LocalStorage Text) (json : Json Text A) where
  open storage use {Store, get_item, set_item, get_item-set_item}
  open json use {stringify, parse, is_empty, parse-stringify, is_empty-stringify}

  -- The value of the stored text; `!stored` holds of a missing and of an empty text.
  abbrev pub parse_stored : Option Text → A → A
  parse_stored none fallback = fallback
  parse_stored (some stored) fallback =
      if is_empty stored
      then fallback
      else elim (parse stored) [ none ↦ fallback | some parsed ↦ parsed ]

  -- `try { localStorage.setItem(key, text) } catch { … }`
  abbrev pub store_or_keep : Store → Option Store → Store
  store_or_keep s none = s
  store_or_keep s (some t) = t

  abbrev pub save_json : String → Store → A → Store
  save_json key s a = store_or_keep s (set_item s key (stringify a))

  abbrev pub load_json : String → Store → A → A
  load_json key s fallback = parse_stored (get_item s key) fallback

  -- What is read back after a save: the text if the browser took it, what was there before if not.
  pub get_item-save_json :
      (key : String) (s : Store) (a : A)
      → get_item (save_json key s a) key
        ≡ (if is_some (set_item s key (stringify a)) then some (stringify a) else get_item s key)
  get_item-save_json key s a = go (set_item s key (stringify a)) refl
    where
      go :
          (o : Option Store)
          → set_item s key (stringify a) ≡ o
          → get_item (store_or_keep s o) key
            ≡ (if is_some o then some (stringify a) else get_item s key)
      go none e = refl
      go (some t) e = get_item-set_item s t key (stringify a) e

  -- The text of a value is not taken for a missing one, and parses to the value.
  pub parse_stored-stringify : (a fallback : A) → parse_stored (some (stringify a)) fallback ≡ a
  parse_stored-stringify a fallback = rw (is_empty-stringify a, parse-stringify a) refl

  -- A load after a save gives the value if the browser took the text, and otherwise what a load
  -- before the save gave.
  pub load_json-save_json :
      (key : String) (s : Store) (a fallback : A)
      → load_json key (save_json key s a) fallback
        ≡ (if is_some (set_item s key (stringify a)) then a else load_json key s fallback)
  load_json-save_json key s a fallback =
      elim (Bool-cases (is_some (set_item s key (stringify a)))) [
        | inl e ↦ rw (get_item-save_json key s a, e) (parse_stored-stringify a fallback)
        | inr e ↦ rw (get_item-save_json key s a, e) refl
      ]
