-- ===== src/JoinCode/Lengths.antt =====
-- App.tsx: what `extractJoinCode` does with a code that has not six letters and digits.
use Prim.Native.Char.{Char}
use Prim.Native.String
use wormhole.Paths.{text_length}
use wormhole.Texts.{keep, to_upper_case, glue}
use wormhole.Texts.Laws.{
  Every, keep-Every, keep_of_Every, is_alnum, is_code_char, count, to_upper_case-Every,
  text_length-count, append-eq-glue, trim_of_NoSpace,
}
use wormhole.HistoryHook.{make_share_link}
use wormhole.JoinCode.{
  from_match, from_web_link, is_dashed_char, format_join_code, normal, is_formatted, from_deep_link,
  from_plain, deep_path, extract_from, extract_join_code,
}
use wormhole.JoinCode.Links.{
  is_dash_alnum, to_upper_case-dashed, NoSpace-glue, deep_path-none, is_web_link-false,
  extract_from_plain, nonempty_of_le, match_link_lem, make_share_link-eq-glue,
}
use wormhole.JoinCode.Results.{formatted_six}
use wormhole.Common.{
  ◌≤◌, ◌≢◌, String, ◌≡◌, refl, sym, ap, ◌∙◌, true, false, Bool-cases, inl, inr, none, some, arith,
  leb, nat_eq,
}

module _ (upper : Char → String) (v : String) (h : Every is_dash_alnum v)
    (other : count (keep is_alnum v) ≢ 6) where
  bare-not_six : nat_eq (text_length (to_upper_case upper (keep is_alnum v))) 6 ≡ false
  bare-not_six =
      let (codes, same) = to_upper_case-Every upper (keep is_alnum v) (keep-Every is_alnum v) in
      let all = text_length-count is_code_char _ (λ c d. ground arith) codes in
      ground (arith, all, same)

  normal-not_six : nat_eq (text_length (normal upper v)) 6 ≡ false
  normal-not_six = rw ((to_upper_case-dashed upper v h).1) bare-not_six

  not_formatted : is_formatted v ≡ false
  not_formatted = elim (Bool-cases (is_formatted v)) [
    | inl f ↦ let dead : false ≡ true = sym normal-not_six ∙ formatted_six upper v f in cc
    | inr e ↦ e
  ]

  from_plain-none : from_plain upper v ≡ none
  unfolding from_plain
  from_plain-none = rw (normal-not_six, not_formatted) refl

  from_deep_link-any :
      6 ≤ count v
      → from_deep_link upper (glue "join/" v) ≡ some (to_upper_case upper (keep is_alnum v))
  unfolding from_deep_link format_join_code
  from_deep_link-any long =
      let (dashed, _, bare, same) = to_upper_case-dashed upper v h in
      let all = text_length-count is_dashed_char _ (λ c d. ground arith) dashed in
      let enough : leb 6 (text_length (to_upper_case upper v)) ≡ true =
        ground (arith, all, same, long) in
      rw (keep_of_Every is_dashed_char _ dashed, enough, bare, bare-not_six) refl

  -- A text of at least six letters, digits and dashes that has not exactly six letters and digits is
  -- no code when it is typed in. In a deep link it is one: the dashes count for the length that is
  -- asked for, and what is left without them is returned, be it one character or none at all.
  pub extract_join_code-other_length :
      6 ≤ count v
      → (extract_join_code upper v ≡ none)
        × (extract_join_code upper (String.◌++◌ "wormhole://join/" v)
            ≡ some (to_upper_case upper (keep is_alnum v)))
  unfolding extract_join_code
  extract_join_code-other_length long = (
    ap (λ t. extract_from upper t (deep_path t)) (trim_of_NoSpace v (NoSpace-glue "" v refl h))
        ∙ extract_from_plain upper v (deep_path-none v h) (is_web_link-false v h)
        ∙ from_plain-none,
    ap (extract_join_code upper) (append-eq-glue "wormhole://join/" v)
        ∙ ap (λ t. extract_from upper t (deep_path t))
            (trim_of_NoSpace (glue "wormhole://join/" v) (NoSpace-glue "wormhole://join/" v refl h))
        ∙ from_deep_link-any long,
  )

  from_match-long :
      6 ≤ count (keep is_alnum v)
      → from_match upper (some v) ≡ some (to_upper_case upper (keep is_alnum v))
  unfolding format_join_code
  from_match-long long =
      let (codes, same) = to_upper_case-Every upper (keep is_alnum v) (keep-Every is_alnum v) in
      let all = text_length-count is_code_char _ (λ c d. ground arith) codes in
      let enough : leb 6 (text_length (to_upper_case upper (keep is_alnum v))) ≡ true =
        ground (arith, all, same, long) in
      rw ((to_upper_case-dashed upper v h).1, enough, bare-not_six) refl

  -- The share link of a code of more than six letters and digits is read, too.
  pub extract_join_code-long_link :
      6 ≤ count (keep is_alnum v)
      → extract_join_code upper (make_share_link v) ≡ some (to_upper_case upper (keep is_alnum v))
  unfolding extract_join_code from_web_link
  extract_join_code-long_link long =
      ap (extract_join_code upper) (make_share_link-eq-glue v)
      ∙ ap (λ t. extract_from upper t (deep_path t))
          (trim_of_NoSpace (glue "https://wormhole.byronwade.com/j/" v)
            (NoSpace-glue "https://wormhole.byronwade.com/j/" v refl h))
      ∙ ap (from_match upper) (match_link_lem v h (nonempty_of_le v long))
      ∙ from_match-long long
