-- ===== src/JoinCode/Links.antt =====
-- App.tsx: the same code is read from an input, from a share link and from a deep link.
use Prim.Native.Char.{Char, code}
use Prim.Native.String
use wormhole.Paths.{text_length}
use wormhole.Texts.{strip_prefix, is_empty, keep, all_chars, glue, is_space, to_upper_case}
use wormhole.Texts.Laws.{
  append-eq-glue, Every, Every-glue, Every-weaken, keep-Every, keep_of_Every, all_chars-Every,
  NoSpace, trim_of_NoSpace, is_alnum, is_code_char, count, alnum_cases, capital,
  to_upper_case-Every, text_length-count,
}
use wormhole.JoinCode.{
  is_dashed_char, format_join_code, run_of_code, group_behind, first_of, match_link, from_deep_link,
  from_match, from_web_link, from_plain, deep_path, is_web_link, extract_from, extract_join_code,
}
use wormhole.HistoryHook.{make_share_link, wormhole_base_url}
use wormhole.Common.{
  ℕ, suc, ◌≤◌, String, ◌≡◌, refl, ap, ◌∙◌, Bool, true, false, ◌||◌, ◌⊎◌, inl, inr, none, some,
  arith, leb, nat_eq, not, Bool-cases,
}

abbrev pub is_dash_alnum : ℕ → Bool
is_dash_alnum c = is_alnum c || nat_eq c b'-'

-- A prefix with a character that the text cannot have is not there.
pub strip_prefix_foreign :
    (q : ℕ → Bool) (s p : String) → Every q s → all_chars q p ≡ false → strip_prefix s p ≡ none
strip_prefix_foreign q s String.[] h e = cc
strip_prefix_foreign q String.[] (String.◌∷◌ c p) h e = refl
strip_prefix_foreign q (String.◌∷◌ d s) (String.◌∷◌ c p) h e =
    elim (Bool-cases (nat_eq (code d) (code c))) [
      | inl same ↦ rw same (strip_prefix_foreign q s p h.1 (ground arith))
      | inr other ↦ rw other
    ]

dash_cases :
    (n : ℕ) → is_dash_alnum n ≡ true → (is_alnum n ≡ true) ⊎ ((n ≡ b'-') × (is_alnum n ≡ false))
dash_cases n h = elim (Bool-cases (is_alnum n)) [ inl e ↦ inl e | inr e ↦ inr (ground arith, e) ]

abbrev not_dash : ℕ → Bool
not_dash c = not (nat_eq c b'-')

-- What is known of the upper case `u` of a text whose letters and digits have the upper case `k`.
abbrev IsUpperOf : String → String → ℕ → Type 0
IsUpperOf u k n =
    Every is_dashed_char u × (keep is_code_char u ≡ k) × (keep not_dash u ≡ k) × (count u ≡ n)

push_code :
    (c : Char) (u k : String) (n : ℕ)
    → is_code_char (code c) ≡ true
    → IsUpperOf u k n
    → IsUpperOf (String.◌∷◌ c u) (String.◌∷◌ c k) (suc n)
push_code c u k n h (a, b, d, e) =
    let dash : not_dash (code c) ≡ true = ground arith in
    ((ground arith, a), rw h (ap (String.◌∷◌ c) b), rw dash (ap (String.◌∷◌ c) d), ap suc e)

push_dash :
    (c : Char) (u k : String) (n : ℕ)
    → code c ≡ b'-'
    → IsUpperOf u k n
    → IsUpperOf (String.◌∷◌ c u) k (suc n)
push_dash c u k n h (a, b, d, e) = ((rw h refl, a), rw h b, rw h d, ap suc e)

module _ (upper : Char → String) where
  -- Upper case keeps the dashes and the number of characters.
  pub to_upper_case-dashed :
      (v : String)
      → Every is_dash_alnum v
      → IsUpperOf (to_upper_case upper v) (to_upper_case upper (keep is_alnum v)) (count v)
  to_upper_case-dashed String.[] h = (tt, refl, refl, refl)
  to_upper_case-dashed (String.◌∷◌ c v) h =
      let rest = to_upper_case-dashed v h.1 in
      elim (dash_cases (code c) h.0) [
        | inl alnum ↦
            let (a, o) = alnum_cases (code c) alnum in
            elim o [
              | inl l ↦ rw (alnum, a, l) (push_code _ _ _ _ (ground (arith, capital c l)) rest)
              | inr (l, d) ↦ rw (alnum, a, l) (push_code c _ _ _ d rest)
            ]
        | inr (dash, other) ↦ rw (other, dash) (push_dash c _ _ _ dash rest)
      ]

  count-keep-le : (p : ℕ → Bool) (v : String) → count (keep p v) ≤ count v
  count-keep-le p String.[] = omega arith
  count-keep-le p (String.◌∷◌ c v) = ground (arith, count-keep-le p v)

pub run_of_code_lem : (v : String) → Every is_dash_alnum v → run_of_code v ≡ v
run_of_code_lem String.[] h = refl
run_of_code_lem (String.◌∷◌ c v) h = rw h.0 (ap (String.◌∷◌ c) (run_of_code_lem v h.1))

match_link_base :
    (v : String)
    → match_link (glue "https://wormhole.byronwade.com/j/" v)
      ≡ first_of (group_behind (some v)) (
          first_of (group_behind (strip_prefix (glue "/j/" v) "/join/")) (match_link (glue "j/" v)))
match_link_base v = refl

abbrev not_space : ℕ → Bool
not_space c = not (is_space c)

not_space_of_dash_alnum : (c : ℕ) → is_dash_alnum c ≡ true → not_space c ≡ true
not_space_of_dash_alnum c h = ground arith

pub NoSpace-glue :
    (p v : String) → all_chars not_space p ≡ true → Every is_dash_alnum v → NoSpace (glue p v)
NoSpace-glue p v e h =
    Every-glue not_space p v (all_chars-Every not_space p e)
      (Every-weaken is_dash_alnum not_space v not_space_of_dash_alnum h)

nonempty : (v : String) → count (keep is_alnum v) ≡ 6 → is_empty v ≡ false
nonempty String.[] h = absurd (omega arith)
nonempty (String.◌∷◌ c v) h = refl

pub nonempty_of_le : (v : String) → 6 ≤ count (keep is_alnum v) → is_empty v ≡ false
nonempty_of_le String.[] h = absurd (omega arith)
nonempty_of_le (String.◌∷◌ c v) h = refl

pub match_link_lem :
    (v : String)
    → Every is_dash_alnum v
    → is_empty v ≡ false
    → match_link (glue "https://wormhole.byronwade.com/j/" v) ≡ some v
match_link_lem v h e = match_link_base v ∙ rw (run_of_code_lem v h, e) refl

pub deep_path-none : (v : String) → Every is_dash_alnum v → deep_path v ≡ none
deep_path-none v h = rw (strip_prefix_foreign is_dash_alnum v "wormhole:" h refl, deep_path) refl

pub is_web_link-false : (v : String) → Every is_dash_alnum v → is_web_link v ≡ false
is_web_link-false v h =
    rw
      (
        strip_prefix_foreign is_dash_alnum v "http://" h refl,
        strip_prefix_foreign is_dash_alnum v "https://" h refl,
        is_web_link,
      )
      refl

pub extract_from_plain :
    (upper : Char → String) (v : String)
    → deep_path v ≡ none
    → is_web_link v ≡ false
    → extract_from upper v (deep_path v) ≡ from_plain upper v
extract_from_plain upper v d w = ap (extract_from upper v) d ∙ rw w refl

pub make_share_link-eq-glue :
    (v : String) → make_share_link v ≡ glue "https://wormhole.byronwade.com/j/" v
unfolding make_share_link
make_share_link-eq-glue v =
    append-eq-glue wormhole_base_url _ ∙ ap (glue wormhole_base_url) (append-eq-glue "/j/" v)

-- A text of letters, digits and dashes with six letters and digits.
module _ (upper : Char → String) (v : String) (h : Every is_dash_alnum v)
    (six : count (keep is_alnum v) ≡ 6) where
  pub bare-length : text_length (to_upper_case upper (keep is_alnum v)) ≡ 6
  bare-length =
      let (codes, same) = to_upper_case-Every upper (keep is_alnum v) (keep-Every is_alnum v) in
      text_length-count is_code_char _ (λ c d. ground arith) codes ∙ same ∙ six

  pub from_plain_lem :
      from_plain upper v ≡ some (format_join_code (to_upper_case upper (keep is_alnum v)))
  unfolding from_plain
  from_plain_lem = rw ((to_upper_case-dashed upper v h).1, bare-length) refl

  from_match_lem :
      from_match upper (some v) ≡ some (format_join_code (to_upper_case upper (keep is_alnum v)))
  from_match_lem = rw ((to_upper_case-dashed upper v h).1, bare-length) refl

  long : leb 6 (text_length (to_upper_case upper v)) ≡ true
  long =
      let (dashed, _, _, same) = to_upper_case-dashed upper v h in
      let all = text_length-count is_dashed_char _ (λ c d. ground arith) dashed in
      ground (arith, all, same, count-keep-le upper is_alnum v)

  from_deep_link_lem :
      from_deep_link upper (glue "join/" v)
      ≡ some (format_join_code (to_upper_case upper (keep is_alnum v)))
  unfolding from_deep_link
  from_deep_link_lem =
      let (dashed, _, bare, _) = to_upper_case-dashed upper v h in
      rw (keep_of_Every is_dashed_char _ dashed, long, bare) refl

  -- A code of six letters and digits, with dashes anywhere and in any case, is read alike as it is
  -- typed in, from the share link of the client and from the deep link.
  pub extract_join_code-links :
      (extract_join_code upper v ≡ some (format_join_code (to_upper_case upper (keep is_alnum v))))
      × (extract_join_code upper (make_share_link v)
          ≡ some (format_join_code (to_upper_case upper (keep is_alnum v))))
      × (extract_join_code upper (String.◌++◌ "wormhole://join/" v)
          ≡ some (format_join_code (to_upper_case upper (keep is_alnum v))))
  unfolding extract_join_code from_web_link
  extract_join_code-links = (
    ap (λ t. extract_from upper t (deep_path t)) (trim_of_NoSpace v (NoSpace-glue "" v refl h))
        ∙ extract_from_plain upper v (deep_path-none v h) (is_web_link-false v h)
        ∙ from_plain_lem,
    ap (extract_join_code upper) (make_share_link-eq-glue v)
        ∙ ap (λ t. extract_from upper t (deep_path t))
            (trim_of_NoSpace (glue "https://wormhole.byronwade.com/j/" v)
              (NoSpace-glue "https://wormhole.byronwade.com/j/" v refl h))
        ∙ ap (from_match upper) (match_link_lem v h (nonempty v six))
        ∙ from_match_lem,
    ap (extract_join_code upper) (append-eq-glue "wormhole://join/" v)
        ∙ ap (λ t. extract_from upper t (deep_path t))
            (trim_of_NoSpace (glue "wormhole://join/" v) (NoSpace-glue "wormhole://join/" v refl h))
        ∙ from_deep_link_lem,
  )
