-- ===== src/Common/Keyed.antt =====
-- Lists of records told apart by a text: an identifier, a path or a join code.
use Prim.Native.Nat.{ℕ, zero, suc}
use Prim.Native.String.{String}
use mathlib.Core.Path.{◌≡◌, refl, sym, ap}
use mathlib.Core.Logic.{◌≢◌, ◌⊎◌, inl, inr}
use mathlib.Core.Bool.{Bool, true, false, not}
use mathlib.Core.Option.{Option, none, some}
use mathlib.Core.Option
use mathlib.Core.List.{List, [], ◌∷◌, map}
use native.Mathlib.Omega.{arith}
use text.Mathlib.Text.{◌==◌}
use text.Mathlib.TextEquality.{eq_iff}
use wormhole.Common.Tests.{if◌then◌else◌, Bool-cases, Option-cases}
use wormhole.Common.Arrays.{
  All, any, filter, find, find_index, set, take, erase_idx, length, All-filter, All-take,
  All-erase_idx, All-set,
}

-- The two branches on the result of `findIndex`.
abbrev pub write {ℓ} : {A : Type ℓ} → A → List A → Option ℕ → List A
write x xs none = x ∷ xs
write x xs (some i) = set xs i x

module _ {ℓ} {A : Type ℓ} (key : A → String) where
  abbrev pub has_key : String → A → Bool
  has_key k x = key x == k

  -- `xs.map(x => x.key === k ? f(x) : x)`
  abbrev pub update_where : String → (A → A) → List A → List A
  update_where k f = map (λ x. if key x == k then f x else x)

  -- `xs.filter(x => x.key !== k)`
  abbrev pub remove_where : String → List A → List A
  remove_where k = filter (λ x. not (key x == k))

  -- `xs.some(x => x.key === k)`, and membership in `new Set(xs.map(x => x.key))`.
  abbrev pub has : String → List A → Bool
  has k = any (has_key k)

  -- The first record with the key is overwritten in place; a new one goes to the front.
  abbrev pub upsert : A → List A → List A
  upsert x xs = write x xs (find_index (has_key (key x)) xs)

  abbrev pub Absent : String → List A → Type 0
  Absent k = All (λ x. key x ≢ k)

  -- No two records have one key.
  abbrev pub Distinct : List A → Type 0
  Distinct [] = Unit
  Distinct (x ∷ xs) = Absent (key x) xs × Distinct xs

module _ {ℓ} {A : Type ℓ} (key : A → String) where
  pub Absent-of_has : (k : String) (xs : List A) → has key k xs ≡ false → Absent key k xs
  Absent-of_has k [] h = tt
  Absent-of_has k (x ∷ xs) h = ground (arith, eq_iff (key x) k, Absent-of_has k xs)

  pub has_of_Absent : (k : String) (xs : List A) → Absent key k xs → has key k xs ≡ false
  has_of_Absent k [] h = refl
  has_of_Absent k (x ∷ xs) h = ground (arith, eq_iff (key x) k, has_of_Absent k xs h.1)

  pub find_of_Absent : (k : String) (xs : List A) → Absent key k xs → find (has_key key k) xs ≡ none
  find_of_Absent k [] h = refl
  find_of_Absent k (x ∷ xs) h = ground (arith, eq_iff (key x) k, find_of_Absent k xs h.1)

  pub Absent-of_find_index :
      (k : String) (xs : List A) → find_index (has_key key k) xs ≡ none → Absent key k xs
  Absent-of_find_index k [] h = tt
  Absent-of_find_index k (x ∷ xs) h = elim (Bool-cases (key x == k)) [
    | inl e ↦ absurd (ground arith)
    | inr e ↦ (ground (arith, eq_iff (key x) k), Absent-of_find_index k xs (ground arith))
  ]

  pub find_index_of_Absent :
      (k : String) (xs : List A) → Absent key k xs → find_index (has_key key k) xs ≡ none
  find_index_of_Absent k [] h = refl
  find_index_of_Absent k (x ∷ xs) h =
      ground (arith, eq_iff (key x) k, find_index_of_Absent k xs h.1)

  pub has_of_find_index :
      (k : String) (xs : List A) (i : ℕ)
      → find_index (has_key key k) xs ≡ some i
      → has key k xs ≡ true
  has_of_find_index k [] i h = cc
  has_of_find_index k (x ∷ xs) i h = elim (Bool-cases (key x == k)) [
    | inl e ↦ ground arith
    | inr e ↦ elim (Option-cases (find_index (has_key key k) xs)) [
      | inl z ↦ absurd (ground arith)
      | inr (j, z) ↦ ground (arith, has_of_find_index k xs j z)
    ]
  ]

  pub Distinct-filter : (p : A → Bool) (xs : List A) → Distinct key xs → Distinct key (filter p xs)
  Distinct-filter p [] h = tt
  Distinct-filter p (x ∷ xs) h =
      ground (arith, Distinct-filter p xs h.1, All-filter (λ y. key y ≢ key x) p xs h.0)

  pub Distinct-take : (n : ℕ) (xs : List A) → Distinct key xs → Distinct key (take n xs)
  Distinct-take _ [] h = tt
  Distinct-take zero (x ∷ xs) h = tt
  Distinct-take (suc n) (x ∷ xs) h =
      (All-take (λ y. key y ≢ key x) n xs h.0, Distinct-take n xs h.1)

  pub Distinct-erase_idx : (xs : List A) (i : ℕ) → Distinct key xs → Distinct key (erase_idx xs i)
  Distinct-erase_idx [] i h = tt
  Distinct-erase_idx (x ∷ xs) zero h = h.1
  Distinct-erase_idx (x ∷ xs) (suc i) h =
      (All-erase_idx (λ y. key y ≢ key x) xs i h.0, Distinct-erase_idx xs i h.1)

  Absent-map :
      (f : A → A) (k : String) (xs : List A)
      → ((x : A) → key (f x) ≡ key x)
      → Absent key k xs
      → Absent key k (map f xs)
  Absent-map f k [] same h = tt
  Absent-map f k (x ∷ xs) same h = (rw (same x) h.0, Absent-map f k xs same h.1)

  -- A map that keeps the keys keeps them distinct.
  pub Distinct-map :
      (f : A → A) (xs : List A)
      → ((x : A) → key (f x) ≡ key x)
      → Distinct key xs
      → Distinct key (map f xs)
  Distinct-map f [] same h = tt
  Distinct-map f (x ∷ xs) same h =
      (rw (same x) (Absent-map f (key x) xs same h.0), Distinct-map f xs same h.1)

  -- Where a search for the key succeeds, it is at the head or further on.
  pub find_index_cases :
      (k : String) (x : A) (xs : List A) (i : ℕ)
      → find_index (has_key key k) (x ∷ xs) ≡ some i
      → ((key x ≡ k) × (i ≡ zero))
        ⊎ ((key x ≢ k) × (j : ℕ) × (find_index (has_key key k) xs ≡ some j) × (i ≡ suc j))
  find_index_cases k x xs i f = elim (Bool-cases (key x == k)) [
    | inl e ↦ inl ((eq_iff (key x) k).0 e, ground arith)
    | inr e ↦ elim (Option-cases (find_index (has_key key k) xs)) [
      | inl z ↦ absurd (ground arith)
      | inr (j, z) ↦ inr (ground (arith, eq_iff (key x) k), j, z, ground arith)
    ]
  ]

  -- A record written over the first one with its key leaves the keys as they were.
  Distinct-set :
      (v : A) (xs : List A) (i : ℕ)
      → find_index (has_key key (key v)) xs ≡ some i
      → Distinct key xs
      → Distinct key (set xs i v)
  Distinct-set v [] i f h = cc
  Distinct-set v (x ∷ xs) i f h = elim (find_index_cases (key v) x xs i f) [
    | inl (e, z) ↦ rw (z, ← e) h
    | inr (ne, j, z, w) ↦
        rw w (All-set (λ y. key y ≢ key x) xs j v h.0 (λ p. ne (sym p)), Distinct-set v xs j z h.1)
  ]

  find-set :
      (v : A) (j : String) (xs : List A) (i : ℕ)
      → find_index (has_key key (key v)) xs ≡ some i
      → find (has_key key j) (set xs i v) ≡ (if key v == j then some v else find (has_key key j) xs)
  find-set v j [] i f = cc
  find-set v j (x ∷ xs) i f = elim (find_index_cases (key v) x xs i f) [
    | inl (e, z) ↦ rw (z, e) (ground (arith, eq_iff (key v) j))
    | inr (ne, m, z, w) ↦
        rw w (ground (arith, eq_iff (key x) j, eq_iff (key v) j, find-set v j xs m z))
  ]

  pub length-set : (xs : List A) (i : ℕ) (v : A) → length (set xs i v) ≡ length xs
  length-set [] i v = refl
  length-set (x ∷ xs) zero v = refl
  length-set (x ∷ xs) (suc i) v = ap suc (length-set xs i v)

  Distinct-write :
      (x : A) (xs : List A) (o : Option ℕ)
      → find_index (has_key key (key x)) xs ≡ o
      → Distinct key xs
      → Distinct key (write x xs o)
  Distinct-write x xs none e h = (Absent-of_find_index (key x) xs e, h)
  Distinct-write x xs (some i) e h = Distinct-set x xs i e h

  pub Distinct-upsert : (x : A) (xs : List A) → Distinct key xs → Distinct key (upsert key x xs)
  Distinct-upsert x xs h = Distinct-write x xs _ refl h

  find-write :
      (x : A) (j : String) (xs : List A) (o : Option ℕ)
      → find_index (has_key key (key x)) xs ≡ o
      → find (has_key key j) (write x xs o)
        ≡ (if key x == j then some x else find (has_key key j) xs)
  find-write x j xs none e = ground arith
  find-write x j xs (some i) e = find-set x j xs i e

  -- After an upsert the key leads to the new record, and every other key to what it led to.
  pub find-upsert :
      (x : A) (j : String) (xs : List A)
      → find (has_key key j) (upsert key x xs)
        ≡ (if key x == j then some x else find (has_key key j) xs)
  find-upsert x j xs = find-write x j xs _ refl

  pub find-update_where :
      (k j : String) (f : A → A) (xs : List A)
      → ((x : A) → key (f x) ≡ key x)
      → find (has_key key j) (update_where key k f xs)
        ≡ (if k == j then Option.map f (find (has_key key j) xs) else find (has_key key j) xs)
  find-update_where k j f [] same = ground arith
  find-update_where k j f (x ∷ xs) same = ground (
    arith,
    same x,
    eq_iff (key x) k,
    eq_iff (key x) j,
    eq_iff (key (f x)) j,
    eq_iff k j,
    find-update_where k j f xs same,
  )

  pub find-remove_where :
      (k j : String) (xs : List A)
      → find (has_key key j) (remove_where key k xs)
        ≡ (if k == j then none else find (has_key key j) xs)
  find-remove_where k j [] = ground arith
  find-remove_where k j (x ∷ xs) =
      ground (arith, eq_iff (key x) k, eq_iff (key x) j, eq_iff k j, find-remove_where k j xs)
