-- ===== src/Texts/Laws.antt =====
-- Laws of the operations on texts.
use Prim.Native.Char.{Char, code}
use Prim.Native.String
use text.Mathlib.TextLemmas.{nil-append, cons-append}
use wormhole.Texts.{
  strip_prefix, is_space, trim_start, trim_end, trim, keep, all_chars, take_chars, drop_chars, glue,
  is_lower, is_upper, is_digit, nth_char, to_upper_case,
}
use wormhole.Paths.{text_length}
use wormhole.Common.{
  ℕ, zero, suc, ◌-◌, ◌<◌, String, ◌≡◌, refl, ap, ◌∙◌, Bool, true, false, ◌&&◌, ◌||◌, ◌⊎◌, inl, inr,
  Bool-cases, some, arith, leb, not,
}

pub append-eq-glue : (s t : String) → String.◌++◌ s t ≡ glue s t
append-eq-glue String.[] t = nil-append t
append-eq-glue (String.◌∷◌ c s) t = cons-append c s t ∙ ap (String.◌∷◌ c) (append-eq-glue s t)

pub glue_assoc : (s t u : String) → glue (glue s t) u ≡ glue s (glue t u)
glue_assoc String.[] t u = refl
glue_assoc (String.◌∷◌ c s) t u = ap (String.◌∷◌ c) (glue_assoc s t u)

pub strip_prefix-glue : (p s : String) → strip_prefix (glue p s) p ≡ some s
strip_prefix-glue String.[] s = refl
strip_prefix-glue (String.◌∷◌ c p) s = ground (arith, strip_prefix-glue p s)

pub false_of_not : (b : Bool) → not b ≡ true → b ≡ false
false_of_not true h = cc
false_of_not false h = refl

pub both_of_and : (a b : Bool) → (a && b) ≡ true → (a ≡ true) × (b ≡ true)
both_of_and true b h = (refl, h)
both_of_and false b h = cc

-- Every character passes the test.
abbrev pub Every : (ℕ → Bool) → String → Type 0
Every p String.[] = Unit
Every p (String.◌∷◌ c s) = (p (code c) ≡ true) × Every p s

pub Every-glue : (p : ℕ → Bool) (s t : String) → Every p s → Every p t → Every p (glue s t)
Every-glue p String.[] t h k = k
Every-glue p (String.◌∷◌ c s) t h k = (h.0, Every-glue p s t h.1 k)

pub Every-weaken :
    (p q : ℕ → Bool) (s : String) → ((c : ℕ) → p c ≡ true → q c ≡ true) → Every p s → Every q s
Every-weaken p q String.[] w h = tt
Every-weaken p q (String.◌∷◌ c s) w h = (w (code c) h.0, Every-weaken p q s w h.1)

pub keep-Every : (p : ℕ → Bool) (s : String) → Every p (keep p s)
keep-Every p String.[] = tt
keep-Every p (String.◌∷◌ c s) = ground (arith, keep-Every p s)

pub keep_of_Every : (p : ℕ → Bool) (s : String) → Every p s → keep p s ≡ s
keep_of_Every p String.[] h = refl
keep_of_Every p (String.◌∷◌ c s) h = rw h.0 (ap (String.◌∷◌ c) (keep_of_Every p s h.1))

pub all_chars-Every : (p : ℕ → Bool) (s : String) → all_chars p s ≡ true → Every p s
all_chars-Every p String.[] h = tt
all_chars-Every p (String.◌∷◌ c s) h = ground (arith, all_chars-Every p s)

pub all_chars_of_Every : (p : ℕ → Bool) (s : String) → Every p s → all_chars p s ≡ true
all_chars_of_Every p String.[] h = refl
all_chars_of_Every p (String.◌∷◌ c s) h = rw h.0 (all_chars_of_Every p s h.1)

-- A text without spaces is not trimmed.
abbrev pub NoSpace : String → Type 0
NoSpace = Every (λ c. not (is_space c))

trim_start_of_NoSpace : (s : String) → NoSpace s → trim_start s ≡ s
trim_start_of_NoSpace String.[] h = refl
trim_start_of_NoSpace (String.◌∷◌ c s) h = rw (false_of_not (is_space (code c)) h.0)

trim_end_of_NoSpace : (s : String) → NoSpace s → trim_end s ≡ s
trim_end_of_NoSpace String.[] h = refl
trim_end_of_NoSpace (String.◌∷◌ c s) h =
    rw (false_of_not (is_space (code c)) h.0) (ap (String.◌∷◌ c) (trim_end_of_NoSpace s h.1))

pub trim_of_NoSpace : (s : String) → NoSpace s → trim s ≡ s
trim_of_NoSpace s h = ap trim_end (trim_start_of_NoSpace s h) ∙ trim_end_of_NoSpace s h

-- ASCII without small letters is its own upper case.
abbrev pub NoLower : String → Type 0
NoLower = Every (λ c. not (leb 128 c) && not (is_lower c))

pub to_upper_case_of_NoLower :
    (upper : Char → String) (s : String) → NoLower s → to_upper_case upper s ≡ s
to_upper_case_of_NoLower upper String.[] h = refl
to_upper_case_of_NoLower upper (String.◌∷◌ c s) h =
    let (ascii, big) = both_of_and _ _ h.0 in
    rw
      (
        false_of_not (leb 128 (code c)) ascii,
        false_of_not (is_lower (code c)) big,
        to_upper_case_of_NoLower upper s h.1,
      )
      refl

-- Letters and digits of ASCII.
abbrev pub is_alnum : ℕ → Bool
is_alnum c = is_upper c || (is_lower c || is_digit c)

abbrev pub is_code_char : ℕ → Bool
is_code_char c = is_upper c || is_digit c

abbrev pub count : String → ℕ
count String.[] = 0
count (String.◌∷◌ c s) = suc (count s)

nth_char-Every :
    (p : ℕ → Bool) (k : ℕ) (s : String) (d : Char)
    → Every p s
    → k < count s
    → p (code (nth_char k s d)) ≡ true
nth_char-Every p k String.[] d h l = absurd (omega arith)
nth_char-Every p zero (String.◌∷◌ c s) d h l = h.0
nth_char-Every p (suc k) (String.◌∷◌ c s) d h l = nth_char-Every p k s d h.1 (omega arith)

pub capital :
    (c : Char)
    → is_lower (code c) ≡ true
    → is_upper (code (nth_char (code c - b'a') "ABCDEFGHIJKLMNOPQRSTUVWXYZ" c)) ≡ true
capital c h =
    nth_char-Every is_upper (code c - b'a') "ABCDEFGHIJKLMNOPQRSTUVWXYZ" c
      (all_chars-Every is_upper "ABCDEFGHIJKLMNOPQRSTUVWXYZ" refl) (ground arith)

pub alnum_cases :
    (n : ℕ)
    → is_alnum n ≡ true
    → (leb 128 n ≡ false) × ((is_lower n ≡ true) ⊎ ((is_lower n ≡ false) × (is_code_char n ≡ true)))
alnum_cases n h = elim (Bool-cases (is_lower n)) [
  | inl e ↦ (ground arith, inl e)
  | inr e ↦ (ground arith, inr (e, ground arith))
]

-- The upper case of letters and digits is as many capitals and digits.
pub to_upper_case-Every :
    (upper : Char → String) (s : String)
    → Every is_alnum s
    → Every is_code_char (to_upper_case upper s) × (count (to_upper_case upper s) ≡ count s)
to_upper_case-Every upper String.[] h = (tt, refl)
to_upper_case-Every upper (String.◌∷◌ c s) h =
    let (rest, same) = to_upper_case-Every upper s h.1 in
    let (a, o) = alnum_cases (code c) h.0 in
    elim o [
      | inl l ↦ rw (a, l) ((ground (arith, capital c l), rest), ap suc same)
      | inr (l, d) ↦ rw (a, l) ((d, rest), ap suc same)
    ]

-- The length of ASCII is the number of its characters.
pub text_length-count :
    (p : ℕ → Bool) (s : String)
    → ((c : ℕ) → p c ≡ true → leb 65536 c ≡ false)
    → Every p s
    → text_length s ≡ count s
text_length-count p String.[] w h = refl
text_length-count p (String.◌∷◌ c s) w h =
    rw (w (code c) h.0) (omega (arith, text_length-count p s w h.1))

pub Every-take_chars : (p : ℕ → Bool) (n : ℕ) (s : String) → Every p s → Every p (take_chars n s)
Every-take_chars p zero s h = tt
Every-take_chars p (suc n) String.[] h = tt
Every-take_chars p (suc n) (String.◌∷◌ c s) h = (h.0, Every-take_chars p n s h.1)

pub Every-drop_chars : (p : ℕ → Bool) (n : ℕ) (s : String) → Every p s → Every p (drop_chars n s)
Every-drop_chars p zero s h = h
Every-drop_chars p (suc n) String.[] h = tt
Every-drop_chars p (suc n) (String.◌∷◌ c s) h = Every-drop_chars p n s h.1

pub Every-keep : (p q : ℕ → Bool) (s : String) → Every p s → Every p (keep q s)
Every-keep p q String.[] h = tt
Every-keep p q (String.◌∷◌ c s) h = ground (arith, Every-keep p q s h.1)
