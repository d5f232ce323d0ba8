-- ===== src/JoinPage/Codes.antt =====
-- page.tsx and App.tsx: the desktop client reads the codes that the join page hands over.
use Prim.Native.Char.{Char, code}
use mathlib.Core.Path.{subst}
use wormhole.Paths.{text_length}
use wormhole.Texts.{
  contains, trim, keep, glue, take_chars, drop_chars, is_lower, is_space, to_upper_case,
}
use wormhole.Texts.Laws.{
  append-eq-glue, Every, Every-glue, Every-weaken, Every-take_chars, Every-drop_chars, keep-Every,
  keep_of_Every, is_alnum, is_code_char, count, both_of_and, trim_of_NoSpace,
  to_upper_case_of_NoLower, text_length-count,
}
use wormhole.HistoryHook.{make_share_link}
use wormhole.JoinCode.{format_join_code, extract_join_code, is_dashed_char}
use wormhole.JoinCode.Links.{
  is_dash_alnum, to_upper_case-dashed, strip_prefix_foreign, extract_join_code-links,
}
use wormhole.JoinCode.Lengths.{extract_join_code-other_length, extract_join_code-long_link}
use wormhole.JoinPage.{
  drop_link, with_dash, normalize_join_code, is_valid_join_code, deep_link_url, page_link,
}
use wormhole.Common.{
  ℕ, zero, suc, ◌≤◌, ◌≢◌, String, ◌≡◌, refl, sym, ap, ◌∙◌, Bool, true, false, Bool-cases, ◌&&◌, not,
  inl, inr, some, arith, leb, nat_eq,
}

pub no_dash : (c : String) → Every is_code_char c → contains c "-" ≡ false
no_dash String.[] h = refl
no_dash (String.◌∷◌ d c) h = ground (arith, no_dash c h.1)

pub with_dash-eq-format_join_code :
    (c : String) → Every is_code_char c → with_dash c ≡ format_join_code c
unfolding format_join_code
with_dash-eq-format_join_code c h = elim (Bool-cases (nat_eq (text_length c) 6)) [
  | inl six ↦ rw (six, no_dash c h) refl
  | inr other ↦ rw other refl
]

keep-glue : (p : ℕ → Bool) (s t : String) → keep p (glue s t) ≡ glue (keep p s) (keep p t)
keep-glue p String.[] t = refl
keep-glue p (String.◌∷◌ c s) t = elim (Bool-cases (p (code c))) [
  | inl e ↦ rw e (ap (String.◌∷◌ c) (keep-glue p s t))
  | inr e ↦ rw e (keep-glue p s t)
]

glue-take_chars-drop_chars : (n : ℕ) (s : String) → glue (take_chars n s) (drop_chars n s) ≡ s
glue-take_chars-drop_chars zero s = refl
glue-take_chars-drop_chars (suc n) String.[] = refl
glue-take_chars-drop_chars (suc n) (String.◌∷◌ c s) =
    ap (String.◌∷◌ c) (glue-take_chars-drop_chars n s)

pub codes_are_alnum : (c : String) → Every is_code_char c → Every is_alnum c
codes_are_alnum c = Every-weaken is_code_char is_alnum c (λ n h. ground arith)

pub codes_are_dash_alnum : (c : String) → Every is_code_char c → Every is_dash_alnum c
codes_are_dash_alnum c = Every-weaken is_code_char is_dash_alnum c (λ n h. ground arith)

pub code_length : (c : String) → Every is_code_char c → text_length c ≡ count c
code_length c = text_length-count is_code_char c (λ n h. ground arith)

pub nope : (c : String) → Every is_code_char c → nat_eq (text_length c) 6 ≡ false → count c ≢ 6
nope c h other e = let length = code_length c h in ground arith

pub dashed : String → String
dashed c = glue (take_chars 3 c) (glue "-" (drop_chars 3 c))

pub format_six : (c : String) → nat_eq (text_length c) 6 ≡ true → format_join_code c ≡ dashed c
unfolding format_join_code dashed
format_six c six = rw six (
    append-eq-glue (take_chars 3 c) _
    ∙ ap (glue (take_chars 3 c)) (append-eq-glue "-" (drop_chars 3 c)))

pub keep-dashed : (c : String) → Every is_code_char c → keep is_alnum (dashed c) ≡ c
unfolding dashed
keep-dashed c h =
    keep-glue is_alnum (take_chars 3 c) (glue "-" (drop_chars 3 c))
    ∙ ap (λ t. glue t (keep is_alnum (drop_chars 3 c)))
        (keep_of_Every is_alnum _ (Every-take_chars is_alnum 3 c (codes_are_alnum c h)))
    ∙ ap (glue (take_chars 3 c))
        (keep_of_Every is_alnum _ (Every-drop_chars is_alnum 3 c (codes_are_alnum c h)))
    ∙ glue-take_chars-drop_chars 3 c

pub dashed-Every : (c : String) → Every is_code_char c → Every is_dash_alnum (dashed c)
unfolding dashed
dashed-Every c h =
    Every-glue is_dash_alnum (take_chars 3 c) _
      (Every-take_chars is_dash_alnum 3 c (codes_are_dash_alnum c h))
      (refl, Every-drop_chars is_dash_alnum 3 c (codes_are_dash_alnum c h))

module _ (upper : Char → String) where
  to_upper_case_of_codes : (c : String) → Every is_code_char c → to_upper_case upper c ≡ c
  to_upper_case_of_codes c h = to_upper_case_of_NoLower upper c (
      Every-weaken is_code_char (λ n. not (leb 128 n) && not (is_lower n)) c (λ n k. ground arith)
        h)

  -- A code of six characters, with its dash, is read from both links.
  read_six :
      (c : String)
      → Every is_code_char c
      → nat_eq (text_length c) 6 ≡ true
      → (extract_join_code upper (deep_link_url (dashed c)) ≡ some (dashed c))
        × (extract_join_code upper (page_link (dashed c)) ≡ some (dashed c))
  unfolding make_share_link
  read_six c h six =
      let all = keep-dashed c h in
      let length = code_length c h in
      let letters : count (keep is_alnum (dashed c)) ≡ 6 = ap count all ∙ ground arith in
      let (_, web, deep) = extract_join_code-links upper (dashed c) (dashed-Every c h) letters in
      let same : format_join_code (to_upper_case upper (keep is_alnum (dashed c))) ≡ dashed c =
        ap (λ t. format_join_code (to_upper_case upper t)) all
        ∙ ap format_join_code (to_upper_case_of_codes c h)
        ∙ format_six c six in
      (deep ∙ ap some same, web ∙ ap some same)

  read_long :
      (c : String)
      → Every is_code_char c
      → nat_eq (text_length c) 6 ≡ false
      → leb 6 (text_length c) ≡ true
      → (extract_join_code upper (deep_link_url c) ≡ some c)
        × (extract_join_code upper (page_link c) ≡ some c)
  unfolding make_share_link
  read_long c h other enough =
      let all = keep_of_Every is_alnum c (codes_are_alnum c h) in
      let length = code_length c h in
      let dash_alnum = codes_are_dash_alnum c h in
      let letters : count (keep is_alnum c) ≢ 6 = λ e. nope c h other (sym (ap count all) ∙ e) in
      let long : 6 ≤ count c = ground arith in
      let same : to_upper_case upper (keep is_alnum c) ≡ c =
        ap (to_upper_case upper) all ∙ to_upper_case_of_codes c h in
      let (_, deep) = extract_join_code-other_length upper c dash_alnum letters long in
      let web = extract_join_code-long_link upper c dash_alnum letters (rw all long) in
      (deep ∙ ap some same, web ∙ ap some same)

  pub long_enough :
      (c : String)
      → Every is_code_char c
      → is_valid_join_code c ≡ true
      → leb 6 (text_length c) ≡ true
  unfolding is_valid_join_code
  long_enough c h valid =
      let bare : keep (λ n. not (nat_eq n b'-')) c ≡ c =
        keep_of_Every (λ n. not (nat_eq n b'-')) c
          (Every-weaken is_code_char (λ n. not (nat_eq n b'-')) c (λ n k. ground arith) h) in
      ap (λ t. leb 6 (text_length t)) (sym bare) ∙ (both_of_and _ _ valid).0

  read_code :
      (c : String)
      → Every is_code_char c
      → is_valid_join_code (with_dash c) ≡ true
      → (extract_join_code upper (deep_link_url (with_dash c)) ≡ some (with_dash c))
        × (extract_join_code upper (page_link (with_dash c)) ≡ some (with_dash c))
  read_code c h valid = elim (Bool-cases (nat_eq (text_length c) 6)) [
    | inl six ↦
        let shown = with_dash-eq-format_join_code c h ∙ format_six c six in
        subst
          (λ t.
            (extract_join_code upper (deep_link_url t) ≡ some t)
            × (extract_join_code upper (page_link t) ≡ some t))
          (sym shown) (read_six c h six)
    | inr other ↦
        let shown : with_dash c ≡ c = rw other refl in
        subst
          (λ t.
            (extract_join_code upper (deep_link_url t) ≡ some t)
            × (extract_join_code upper (page_link t) ≡ some t))
          (sym shown)
          (read_long c h other
            (long_enough c h (subst (λ t. is_valid_join_code t ≡ true) shown valid)))
  ]

  -- Whatever the code in the address is: if the page takes its normal form for valid, then the
  -- desktop client reads exactly this form from the deep link that the page opens, and from the link
  -- that the page copies.
  pub extract_join_code-normalize_join_code :
      (raw : String)
      → is_valid_join_code (normalize_join_code upper raw) ≡ true
      → (extract_join_code upper (deep_link_url (normalize_join_code upper raw))
          ≡ some (normalize_join_code upper raw))
        × (extract_join_code upper (page_link (normalize_join_code upper raw))
            ≡ some (normalize_join_code upper raw))
  unfolding normalize_join_code
  extract_join_code-normalize_join_code raw =
      read_code (keep is_code_char (drop_link (trim (to_upper_case upper raw))))
        (keep-Every is_code_char (drop_link (trim (to_upper_case upper raw))))

  drop_link_none : (s : String) → Every is_dashed_char s → drop_link s ≡ s
  drop_link_none s h =
      rw
        (
          strip_prefix_foreign is_dashed_char s "HTTPS://" h refl,
          strip_prefix_foreign is_dashed_char s "HTTP://" h refl,
          drop_link,
        )
        refl

  -- The page and the client read one code from the share link of a code of six letters and digits,
  -- with dashes anywhere and in any case.
  normalize_join_code-eq-extract_join_code :
      (v : String)
      → Every is_dash_alnum v
      → count (keep is_alnum v) ≡ 6
      → extract_join_code upper (make_share_link v) ≡ some (normalize_join_code upper v)
  unfolding normalize_join_code
  normalize_join_code-eq-extract_join_code v h six =
      let (all, codes, _, _) = to_upper_case-dashed upper v h in
      let plain = trim_of_NoSpace (to_upper_case upper v) (
        Every-weaken is_dashed_char (λ n. not (is_space n)) (to_upper_case upper v)
          (λ n k. ground arith) all) in
      let shown =
        ap (λ t. keep is_code_char (drop_link t)) plain
        ∙ ap (keep is_code_char) (drop_link_none _ all) in
      (extract_join_code-links upper v h six).1
      ∙ ap some (
          ap format_join_code (sym codes ∙ sym shown)
          ∙ sym (
              with_dash-eq-format_join_code
                (keep is_code_char (drop_link (trim (to_upper_case upper v))))
                (keep-Every is_code_char (drop_link (trim (to_upper_case upper v))))))
