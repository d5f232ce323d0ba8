-- ===== src/Common/TwoKeys.antt =====
-- Lists of records with two keys, such as a path and an identifier, written by the first of them.
use Prim.Native.Nat.{ℕ}
use Prim.Native.String.{String}
use mathlib.Core.Path.{◌≡◌, refl, sym, subst}
use mathlib.Core.Logic.{◌≢◌, inl, inr}
use mathlib.Core.Option.{Option, none, some}
use mathlib.Core.List.{List, [], ◌∷◌}
use wormhole.Common.Arrays.{All, find_index, set, All-set}
use wormhole.Common.Keyed.{
  has_key, Absent, Distinct, write, upsert, find_index_cases, Absent-of_find_index,
}

module _ {ℓ} {A : Type ℓ} (key other : A → String) where
  -- Only a record with the same key has the same other key.
  abbrev pub Unclaimed : A → List A → Type 0
  Unclaimed x = All (λ y. other y ≡ other x → key y ≡ key x)

  Absent-of_Unclaimed :
      (v : A) (xs : List A) → Absent key (key v) xs → Unclaimed v xs → Absent other (other v) xs
  Absent-of_Unclaimed v [] a u = tt
  Absent-of_Unclaimed v (x ∷ xs) a u = (λ p. a.0 (u.0 p), Absent-of_Unclaimed v xs a.1 u.1)

  Distinct-set_other_key :
      (v : A) (xs : List A) (i : ℕ)
      → find_index (has_key key (key v)) xs ≡ some i
      → Distinct key xs
      → Unclaimed v xs
      → Distinct other xs
      → Distinct other (set xs i v)
  Distinct-set_other_key v [] i f d u h = cc
  Distinct-set_other_key v (x ∷ xs) i f d u h = elim (find_index_cases key (key v) x xs i f) [
    | inl (e, z) ↦ rw z (Absent-of_Unclaimed v xs (subst (λ k. Absent key k xs) e d.0) u.1, h.1)
    | inr (ne, j, z, w) ↦ rw w (
      All-set (λ y. other y ≢ other x) xs j v h.0 (λ p. ne (u.0 (sym p))),
      Distinct-set_other_key v xs j z d.1 u.1 h.1,
    )
  ]

  Distinct-write_other_key :
      (x : A) (xs : List A) (o : Option ℕ)
      → find_index (has_key key (key x)) xs ≡ o
      → Distinct key xs
      → Unclaimed x xs
      → Distinct other xs
      → Distinct other (write x xs o)
  Distinct-write_other_key x xs none e d u h =
      (Absent-of_Unclaimed x xs (Absent-of_find_index key (key x) xs e) u, h)
  Distinct-write_other_key x xs (some i) e d u h = Distinct-set_other_key x xs i e d u h

  -- Writing a record by its key keeps another key distinct, if that is not in use elsewhere.
  pub Distinct-upsert_other_key :
      (x : A) (xs : List A)
      → Distinct key xs
      → Unclaimed x xs
      → Distinct other xs
      → Distinct other (upsert key x xs)
  Distinct-upsert_other_key x xs d u h = Distinct-write_other_key x xs _ refl d u h
