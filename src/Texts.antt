-- ===== src/Texts.antt =====
-- JavaScript's operations on texts that the client uses: `includes`, `trim`, `toUpperCase`, `slice`,
-- and replacements that drop a prefix or the characters outside a class. Texts are sequences of code
-- points; where the code measures a text, it holds ASCII characters only.
pub mod Laws
use Prim.Native.Char.{Char, code}
use Prim.Native.String
use text.Mathlib.Text.{starts_with}
use wormhole.Common.{
  ℕ, zero, suc, ◌-◌, String, ◌≡◌, Bool, true, false, ◌&&◌, ◌||◌, Option, none, some, leb, nat_eq,
  is_some, if◌then◌else◌,
}

-- `s.includes(t)`
abbrev pub includes : String → String → Bool
includes String.[] t = starts_with "" t
includes (String.◌∷◌ c s) t = starts_with (String.◌∷◌ c s) t || includes s t

-- The text behind a prefix; `none` if the text does not start with it.
abbrev pub strip_prefix : String → String → Option String
strip_prefix s String.[] = some s
strip_prefix String.[] (String.◌∷◌ c p) = none
strip_prefix (String.◌∷◌ d s) (String.◌∷◌ c p) =
    let rest = strip_prefix s p in if nat_eq (code d) (code c) then rest else none

-- `s.replace(/^p/, "")` and `s.replace(/^p?/, "")` at a fixed prefix.
abbrev pub drop_prefix : String → String → String
drop_prefix p s = elim (strip_prefix s p) [ none ↦ s | some rest ↦ rest ]

-- `s.replace(p, "")`: the first place of the text `p` goes.
abbrev pub remove_first : String → String → String
remove_first String.[] p = ""
remove_first (String.◌∷◌ c s) p =
    let rest = remove_first s p in
    elim (strip_prefix (String.◌∷◌ c s) p) [ none ↦ String.◌∷◌ c rest | some behind ↦ behind ]

abbrev pub is_empty : String → Bool
is_empty String.[] = true
is_empty (String.◌∷◌ c s) = false

-- What `\s` is, and what `trim` takes off.
abbrev pub is_space : ℕ → Bool
is_space c =
    (leb 9 c && leb c 13)
    || (nat_eq c 32
        || (nat_eq c 160
            || (nat_eq c 0x1680
                || ((leb 0x2000 c && leb c 0x200A)
                    || (nat_eq c 0x2028
                        || (nat_eq c 0x2029
                            || (nat_eq c 0x202F
                                || (nat_eq c 0x205F || (nat_eq c 0x3000 || nat_eq c 0xFEFF)))))))))

abbrev pub trim_start : String → String
trim_start String.[] = ""
trim_start (String.◌∷◌ c s) =
    let rest = trim_start s in if is_space (code c) then rest else String.◌∷◌ c s

abbrev pub trim_end : String → String
trim_end String.[] = ""
trim_end (String.◌∷◌ c s) =
    let rest = trim_end s in if is_space (code c) && is_empty rest then "" else String.◌∷◌ c rest

abbrev pub trim : String → String
trim s = trim_end (trim_start s)

-- `s.replace(/[^…]/g, "")`
abbrev pub keep : (ℕ → Bool) → String → String
keep p String.[] = ""
keep p (String.◌∷◌ c s) = let rest = keep p s in if p (code c) then String.◌∷◌ c rest else rest

-- `/^[…]*$/.test(s)`
abbrev pub all_chars : (ℕ → Bool) → String → Bool
all_chars p String.[] = true
all_chars p (String.◌∷◌ c s) = p (code c) && all_chars p s

-- `s.slice(0, n)` and `s.slice(n)`
abbrev pub take_chars : ℕ → String → String
take_chars zero s = ""
take_chars (suc n) String.[] = ""
take_chars (suc n) (String.◌∷◌ c s) = String.◌∷◌ c (take_chars n s)

abbrev pub drop_chars : ℕ → String → String
drop_chars zero s = s
drop_chars (suc n) String.[] = ""
drop_chars (suc n) (String.◌∷◌ c s) = drop_chars n s

-- `s + t`, one character after another.
abbrev pub glue : String → String → String
glue String.[] t = t
glue (String.◌∷◌ c s) t = String.◌∷◌ c (glue s t)

abbrev pub is_lower : ℕ → Bool
is_lower c = leb b'a' c && leb c b'z'

abbrev pub is_upper : ℕ → Bool
is_upper c = leb b'A' c && leb c b'Z'

abbrev pub is_digit : ℕ → Bool
is_digit c = leb b'0' c && leb c b'9'

abbrev pub nth_char : ℕ → String → Char → Char
nth_char k String.[] d = d
nth_char zero (String.◌∷◌ c s) d = c
nth_char (suc k) (String.◌∷◌ c s) d = nth_char k s d

-- `toUpperCase`; `upper` says what becomes of a character outside ASCII.
abbrev pub to_upper_case : (Char → String) → String → String
to_upper_case upper String.[] = ""
to_upper_case upper (String.◌∷◌ c s) =
    let rest = to_upper_case upper s in
    if leb 128 (code c)
    then glue (upper c) rest
    else if is_lower (code c)
    then String.◌∷◌ (nth_char (code c - b'a') "ABCDEFGHIJKLMNOPQRSTUVWXYZ" c) rest
    else String.◌∷◌ c rest

-- `s.includes(t)` again, one character after another.
abbrev pub contains : String → String → Bool
contains String.[] t = is_empty t
contains (String.◌∷◌ c s) t = is_some (strip_prefix (String.◌∷◌ c s) t) || contains s t
