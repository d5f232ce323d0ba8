-- ===== src/JoinCode/Results.antt =====
-- App.tsx: what `extractJoinCode` returns for any input.
use Prim.Native.Char.{Char, code}
use Prim.Native.String
use wormhole.Paths.{text_length}
use wormhole.Texts.{take_chars, drop_chars, trim, keep, to_upper_case}
use wormhole.Texts.Laws.{
  append-eq-glue, Every, Every-glue, Every-weaken, keep-Every, keep_of_Every, all_chars-Every,
  is_alnum, is_code_char, count, both_of_and, Every-take_chars, Every-drop_chars, text_length-count,
}
use wormhole.JoinCode.Links.{is_dash_alnum, bare-length, to_upper_case-dashed}
use wormhole.JoinCode.{
  is_formatted, is_dashed_char, format_join_code, drop_join, match_link, normal, from_deep_link,
  from_match, from_web_link, from_plain, deep_path, is_web_link, extract_from, extract_join_code,
}
use wormhole.Common.{
  ℕ, ◌+◌, String, ◌≡◌, refl, sym, ◌∙◌, Bool, true, false, inl, inr, Option, none, some, arith, leb,
  nat_eq, not, if◌then◌else◌, Bool-cases,
}

rest_three :
    (a b c d n : ℕ)
    → leb 65536 a ≡ false
    → leb 65536 b ≡ false
    → leb 65536 c ≡ false
    → d ≡ b'-'
    → nat_eq
        ((if leb 65536 a then 2 else 1)
          + ((if leb 65536 b then 2 else 1)
              + ((if leb 65536 c then 2 else 1) + ((if leb 65536 d then 2 else 1) + n))))
        7
      ≡ true
    → n ≡ 3
rest_three a b c d n ea eb ec hd = rw (ea, eb, ec, hd) (λ h. ground arith)

three :
    (a b c d n : ℕ)
    → is_alnum a ≡ true
    → is_alnum b ≡ true
    → is_alnum c ≡ true
    → d ≡ b'-'
    → nat_eq
        ((if leb 65536 a then 2 else 1)
          + ((if leb 65536 b then 2 else 1)
              + ((if leb 65536 c then 2 else 1) + ((if leb 65536 d then 2 else 1) + n))))
        7
      ≡ true
    → n ≡ 3
three a b c d n ha hb hc hd h =
    let ea : leb 65536 a ≡ false = ground (arith, ha) in
    let eb : leb 65536 b ≡ false = ground (arith, hb) in
    let ec : leb 65536 c ≡ false = ground (arith, hc) in rest_three a b c d n ea eb ec hd h

-- A text that the last expression matches: six letters and digits around a dash.
formatted_parts :
    (s : String) → is_formatted s ≡ true → Every is_dash_alnum s × (count (keep is_alnum s) ≡ 6)
formatted_parts (String.◌∷◌ a (String.◌∷◌ b (String.◌∷◌ c (String.◌∷◌ d rest)))) h =
    let (seven_all, chars) = both_of_and _ _ h in
    let (front, back) = both_of_and _ _ chars in
    let (minus, behind) = both_of_and _ _ back in
    let tail : Every is_alnum rest = all_chars-Every is_alnum rest behind in
    let len : text_length rest ≡ count rest =
      text_length-count is_alnum rest (λ c d. ground arith) tail in
    let first : is_alnum (code a) ≡ true = ground (arith, front) in
    let second : is_alnum (code b) ≡ true = ground (arith, front) in
    let third : is_alnum (code c) ≡ true = ground (arith, front) in
    let dash : code d ≡ b'-' = ground (arith, minus) in
    let seven : text_length rest ≡ 3 =
      three (code a) (code b) (code c) (code d) _ first second third dash seven_all in
    let all : count rest ≡ 3 = omega (arith, len, seven) in
    rw (first, second, third, dash, keep_of_Every is_alnum rest tail, all)
      (
        (
          refl,
          (
            refl,
            (refl, (refl, Every-weaken is_alnum is_dash_alnum rest (λ c d. ground arith) tail)),
          ),
        ),
        refl,
      )
formatted_parts (String.◌∷◌ a (String.◌∷◌ b (String.◌∷◌ c String.[]))) h = absurd (ground arith)
formatted_parts (String.◌∷◌ a (String.◌∷◌ b String.[])) h = absurd (ground arith)
formatted_parts (String.◌∷◌ a String.[]) h = absurd (ground arith)
formatted_parts String.[] h = cc

format_join_code-Every :
    (s : String) → Every is_code_char s → Every is_dashed_char (format_join_code s)
unfolding format_join_code
format_join_code-Every s h =
    let all : Every is_dashed_char s =
      Every-weaken is_code_char is_dashed_char s (λ c d. ground arith) h in
    elim (Bool-cases (nat_eq (text_length s) 6)) [
      | inl six ↦
          rw
            (
              six,
              append-eq-glue (take_chars 3 s) (String.◌++◌ "-" (drop_chars 3 s)),
              append-eq-glue "-" (drop_chars 3 s),
            )
            (Every-glue is_dashed_char (take_chars 3 s) _ (Every-take_chars is_dashed_char 3 s all)
              (refl, Every-drop_chars is_dashed_char 3 s all))
      | inr other ↦ rw other all
    ]

bare-Every :
    (s : String) → Every is_code_char (keep (λ x. not (nat_eq x b'-')) (keep is_dashed_char s))
bare-Every String.[] = tt
bare-Every (String.◌∷◌ c s) = elim (Bool-cases (is_code_char (code c))) [
  | inl e ↦ let dash : nat_eq (code c) b'-' ≡ false = ground arith in rw (e, dash) (e, bare-Every s)
  | inr e ↦ elim (Bool-cases (nat_eq (code c) b'-')) [
    | inl f ↦ rw (e, f, f) (bare-Every s)
    | inr f ↦ rw (e, f) (bare-Every s)
  ]
]

module _ (upper : Char → String) where
  normal-Every : (s : String) → Every is_dashed_char (format_join_code (normal upper s))
  normal-Every s =
      format_join_code-Every (normal upper s) (keep-Every is_code_char (to_upper_case upper s))

  pub formatted_six :
      (s : String) → is_formatted s ≡ true → nat_eq (text_length (normal upper s)) 6 ≡ true
  formatted_six s f =
      let (all, six) = formatted_parts s f in
      let (_, same, _, _) = to_upper_case-dashed upper s all in
      rw (same, bare-length upper s all six) refl

  -- A text that the last branch would read, like `abc-123`, is read by the branch before it: the
  -- last branch is never taken.
  from_plain-formatted :
      (s : String)
      → is_formatted s ≡ true
      → from_plain upper s ≡ some (format_join_code (normal upper s))
  unfolding from_plain
  from_plain-formatted s f = rw (formatted_six s f) refl

  guarded :
      (b : Bool) (s c : String)
      → Every is_dashed_char (format_join_code s)
      → (if b then some (format_join_code s) else none) ≡ some c
      → Every is_dashed_char c
  guarded true s c k h = let same : format_join_code s ≡ c = cc in rw (sym same) k
  guarded false s c k h = cc

  from_deep_link-Every :
      (path : String) (c : String) → from_deep_link upper path ≡ some c → Every is_dashed_char c
  unfolding from_deep_link
  from_deep_link-Every path c =
      guarded _
        (keep (λ x. not (nat_eq x b'-'))
          (keep is_dashed_char (to_upper_case upper (drop_join path))))
        c (format_join_code-Every _ (bare-Every (to_upper_case upper (drop_join path))))

  from_match-Every :
      (o : Option String) (c : String) → from_match upper o ≡ some c → Every is_dashed_char c
  from_match-Every none c = λ h. cc
  from_match-Every (some g) c = guarded _ (normal upper g) c (normal-Every g)

  from_plain-Every :
      (s : String) (c : String) → from_plain upper s ≡ some c → Every is_dashed_char c
  unfolding from_plain
  from_plain-Every s c = elim (Bool-cases (nat_eq (text_length (normal upper s)) 6)) [
    | inl six ↦ rw six (guarded true (normal upper s) c (normal-Every s))
    | inr other ↦ elim (Bool-cases (is_formatted s)) [
      | inl f ↦ let dead : false ≡ true = sym other ∙ formatted_six s f in cc
      | inr g ↦ rw (other, g) (λ h. cc)
    ]
  ]

  extract_from-Every :
      (trimmed : String) (o : Option String) (c : String)
      → extract_from upper trimmed o ≡ some c
      → Every is_dashed_char c
  unfolding from_web_link
  extract_from-Every trimmed (some path) c = from_deep_link-Every path c
  extract_from-Every trimmed none c = elim (Bool-cases (is_web_link trimmed)) [
    | inl web ↦ rw web (from_match-Every (match_link trimmed) c)
    | inr other ↦ rw other (from_plain-Every trimmed c)
  ]

  -- Whatever the input is: a code that is read has capitals, digits and dashes only.
  pub extract_join_code-Every :
      (input c : String) → extract_join_code upper input ≡ some c → Every is_dashed_char c
  unfolding extract_join_code
  extract_join_code-Every input c = extract_from-Every (trim input) (deep_path (trim input)) c
