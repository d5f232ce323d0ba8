-- ===== src/Common/Arrays.antt =====
-- JavaScript's array methods on lists: `filter`, `some`, `find`, `findIndex`, `slice(0, n)`, a write
-- at an index and a removal at an index.
use Prim.Native.Nat.{ℕ, zero, suc, ◌+◌, ◌≤◌}
use mathlib.Core.Path.{◌≡◌, refl, ap}
use mathlib.Core.Bool.{Bool, true, false, ◌||◌}
use mathlib.Core.Option.{Option, none, some}
use mathlib.Core.Option
use mathlib.Core.List.{List, [], ◌∷◌, ◌++◌, map}
use native.Mathlib.Omega.{arith}
use wormhole.Common.Tests.{if◌then◌else◌, is_some}

module _ {ℓ} {A : Type ℓ} where
  abbrev pub length : List A → ℕ
  length [] = 0
  length (_ ∷ rest) = suc (length rest)

  abbrev pub filter : (A → Bool) → List A → List A
  filter p [] = []
  filter p (x ∷ xs) = let rest = filter p xs in if p x then x ∷ rest else rest

  -- `xs.some(p)`
  abbrev pub any : (A → Bool) → List A → Bool
  any p [] = false
  any p (x ∷ xs) = p x || any p xs

  abbrev pub find : (A → Bool) → List A → Option A
  find p [] = none
  find p (x ∷ xs) = let rest = find p xs in if p x then some x else rest

  -- `xs.findIndex(p)`; the result -1 is `none`.
  abbrev pub find_index : (A → Bool) → List A → Option ℕ
  find_index p [] = none
  find_index p (x ∷ xs) =
      let rest = Option.map suc (find_index p xs) in if p x then some 0 else rest

  -- `xs[i] = v` for an index in range.
  abbrev pub set : List A → ℕ → A → List A
  set [] i v = []
  set (x ∷ xs) zero v = v ∷ xs
  set (x ∷ xs) (suc i) v = x ∷ set xs i v

  -- `xs.filter((_, j) => j !== i)`, and what `xs.splice(i, 1)` leaves.
  abbrev pub erase_idx : List A → ℕ → List A
  erase_idx [] i = []
  erase_idx (x ∷ xs) zero = xs
  erase_idx (x ∷ xs) (suc i) = x ∷ erase_idx xs i

  abbrev pub get_elem? : List A → ℕ → Option A
  get_elem? [] _ = none
  get_elem? (e ∷ rest) zero = some e
  get_elem? (e ∷ rest) (suc k) = get_elem? rest k

  -- `xs.slice(0, n)`
  abbrev pub take : ℕ → List A → List A
  take _ [] = []
  take zero (x ∷ rest) = []
  take (suc k) (x ∷ rest) = x ∷ take k rest

  abbrev pub All {κ} : (A → Type κ) → List A → Type κ
  All P [] = Unit
  All P (x ∷ xs) = P x × All P xs

module _ {ℓ} {A : Type ℓ} where
  pub length-append : (xs ys : List A) → length (xs ++ ys) ≡ length xs + length ys
  length-append [] ys = omega arith
  length-append (x ∷ xs) ys = omega (arith, length-append xs ys)

  pub length-map {κ} : {B : Type κ} (f : A → B) (xs : List A) → length (map f xs) ≡ length xs
  length-map f [] = refl
  length-map f (x ∷ xs) = ap suc (length-map f xs)

  pub length-filter-le : (p : A → Bool) (xs : List A) → length (filter p xs) ≤ length xs
  length-filter-le p [] = omega arith
  length-filter-le p (x ∷ xs) = ground (arith, length-filter-le p xs)

  -- A filter that drops nothing by count drops nothing.
  pub filter_of_length :
      (p : A → Bool) (xs : List A) → length (filter p xs) ≡ length xs → filter p xs ≡ xs
  filter_of_length p [] h = refl
  filter_of_length p (x ∷ xs) h = ground (arith, filter_of_length p xs, length-filter-le p xs)

  pub length-take-le : (k : ℕ) (entries : List A) → length (take k entries) ≤ k
  length-take-le _ [] = omega arith
  length-take-le zero (e ∷ rest) = omega arith
  length-take-le (suc k) (e ∷ rest) = omega (arith, length-take-le k rest)

  -- A slice that is no shorter than the array is the array.
  pub take_of_length-le : (k : ℕ) (entries : List A) → length entries ≤ k → take k entries ≡ entries
  take_of_length-le _ [] fits = refl
  take_of_length-le zero (e ∷ rest) fits = absurd (omega arith)
  take_of_length-le (suc k) (e ∷ rest) fits =
      ap (λ tail. e ∷ tail) (take_of_length-le k rest (omega arith))

module _ {ℓ κ} {A : Type ℓ} (P : A → Type κ) where
  pub All-filter : (p : A → Bool) (xs : List A) → All P xs → All P (filter p xs)
  All-filter p [] h = tt
  All-filter p (x ∷ xs) h = ground (arith, All-filter p xs h.1)

  pub All-take : (n : ℕ) (xs : List A) → All P xs → All P (take n xs)
  All-take _ [] h = tt
  All-take zero (x ∷ rest) h = tt
  All-take (suc n) (x ∷ rest) h = (h.0, All-take n rest h.1)

  pub All-erase_idx : (xs : List A) (i : ℕ) → All P xs → All P (erase_idx xs i)
  All-erase_idx [] i h = tt
  All-erase_idx (x ∷ xs) zero h = h.1
  All-erase_idx (x ∷ xs) (suc i) h = (h.0, All-erase_idx xs i h.1)

  pub All-set : (xs : List A) (i : ℕ) (v : A) → All P xs → P v → All P (set xs i v)
  All-set [] i v h k = tt
  All-set (x ∷ xs) zero v h k = (k, h.1)
  All-set (x ∷ xs) (suc i) v h k = (h.0, All-set xs i v h.1 k)

  pub All-append : (xs ys : List A) → All P xs → All P ys → All P (xs ++ ys)
  All-append [] ys h k = k
  All-append (x ∷ xs) ys h k = (h.0, All-append xs ys h.1 k)

  pub All-map {μ} :
      {B : Type μ} (Q : B → Type κ) (f : A → B) (xs : List A)
      → ((x : A) → P x → Q (f x))
      → All P xs
      → All Q (map f xs)
  All-map Q f [] k h = tt
  All-map Q f (x ∷ xs) k h = (k x h.0, All-map Q f xs k h.1)

  pub All-find : (p : A → Bool) (xs : List A) (x : A) → find p xs ≡ some x → All P xs → P x
  All-find p [] x e h = cc
  All-find p (y ∷ xs) x e h = ground (arith, All-find p xs x)

module _ {ℓ} {A : Type ℓ} (p : A → Bool) where
  pub filter-All : (xs : List A) → All (λ x. p x ≡ true) (filter p xs)
  filter-All [] = tt
  filter-All (x ∷ xs) = ground (arith, filter-All xs)

  pub filter_of_All : (xs : List A) → All (λ x. p x ≡ true) xs → filter p xs ≡ xs
  filter_of_All [] h = refl
  filter_of_All (x ∷ xs) h = rw (h.0, filter_of_All xs h.1)

  pub find_holds : (xs : List A) (x : A) → find p xs ≡ some x → p x ≡ true
  find_holds [] x e = cc
  find_holds (y ∷ xs) x e = ground (arith, find_holds xs x)

  pub any-find : (xs : List A) → any p xs ≡ is_some (find p xs)
  any-find [] = refl
  any-find (x ∷ xs) = ground (arith, any-find xs)
