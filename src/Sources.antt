-- ===== src/Sources.antt =====
-- What a favorite, a recent file, an index entry or a transfer belongs to: a share or a connection.
use wormhole.History.{ShareHistoryItem, ConnectionHistoryItem}
use wormhole.Common.{
  String, ◌≡◌, Bool, not, ◌||◌, List, arith, nat_eq, if◌then◌else◌, length, filter,
  filter_of_length, has,
}

-- `"share" | "connection"`
pub data SourceType : Type 0 where
  share connection : SourceType

-- `validSourceIds.has(id)`, where the set holds the identifiers of both lists.
abbrev pub is_valid_source : List ShareHistoryItem → List ConnectionHistoryItem → String → Bool
is_valid_source shares connections id = has (λ s. s.id) id shares || has (λ c. c.id) id connections

-- The clean-up of a list: what `p` rejects goes, and the list itself is kept if nothing went.
abbrev pub filter_if_changed {ℓ} : {A : Type ℓ} → (A → Bool) → List A → List A
filter_if_changed p prev =
    if not (nat_eq (length (filter p prev)) (length prev)) then filter p prev else prev

-- Keeping the old list where nothing went is the plain filter.
pub filter_if_changed-eq-filter {ℓ} :
    {A : Type ℓ} (p : A → Bool) (xs : List A) → filter_if_changed p xs ≡ filter p xs
filter_if_changed-eq-filter p xs = ground (arith, filter_of_length p xs)
