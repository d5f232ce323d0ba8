-- ===== src/DeepLinks/HandOver.antt =====
-- From the join page of the web site to the dialog of connecting in the application.
use Prim.Native.Char.{Char, code}
use mathlib.Core.Path.{subst}
use wormhole.Paths.{text_length}
use wormhole.Texts.{keep, trim, to_upper_case, contains}
use wormhole.Texts.Laws.{Every, is_alnum, is_code_char, count, keep-Every, keep_of_Every}
use wormhole.JoinCode.Links.{is_dash_alnum, extract_join_code-links}
use wormhole.JoinCode.Lengths.{extract_join_code-other_length}
use wormhole.JoinPage.{normalize_join_code, is_valid_join_code, deep_link_url, drop_link, with_dash}
use wormhole.JoinPage.Codes.{
  with_dash-eq-format_join_code, codes_are_alnum, codes_are_dash_alnum, code_length, nope, dashed,
  format_six, keep-dashed, dashed-Every, long_enough, extract_join_code-normalize_join_code,
}
use wormhole.Session.{Session, DialogType, share_dialog, connect_dialog, on_deep_link_join}
use wormhole.ConnectDialog.{
  Connecting, is_direct, is_open, same_effect, listen_effect, type_address, initial_code_changed,
  initial_code_effect, is_valid_code,
}
use wormhole.ConnectDialog.Input.{valid_lem}
use wormhole.DeepLinks.{on_open_url, code_opened}
use wormhole.Common.{
  ◌≤◌, leb, nat_eq, String, ◌≡◌, ◌≢◌, refl, sym, ap, ◌∙◌, true, false, not, ◌&&◌, Bool-cases, inl,
  ◌⊎◌, Option, none, inr, some, [], ◌∷◌, ◌==◌, eq_iff, eq_refl, arith, truthy,
}

truthy_of_ne : (code : String) → code ≢ "" → truthy (some code) ≡ some code
truthy_of_ne code h = ground (arith, eq_iff code "")

-- A text that the page takes for valid is not empty.
valid-ne : (code : String) → is_valid_join_code code ≡ true → code ≢ ""
unfolding is_valid_join_code
valid-ne code valid e =
    let dead : false ≡ true = subst (λ t. is_valid_join_code t ≡ true) e valid in cc

no_colon : (s : String) → Every is_dash_alnum s → contains s ":" ≡ false
no_colon String.[] h = refl
no_colon (String.◌∷◌ c s) h = ground (arith, no_colon s h.1)

not_direct : (s : String) → Every is_dash_alnum s → is_direct s ≡ false
not_direct s h = ap (λ b. b && not (contains s "://")) (no_colon s h)

-- The dialog of connecting was closed, or no code or another one was pending.
abbrev pub Awaits : String → Session → Type 0
Awaits code s = (is_open s ≡ false) ⊎ (s.pending_join_code ≢ some code)

abbrev pub shown_address : Connecting → String
shown_address c = c.dialog.host_address

active_of_open :
    (s : Session) (o : Option DialogType)
    → s.active_dialog ≡ o
    → is_open s ≡ true
    → o ≡ some connect_dialog
active_of_open s none e h =
    let dead : false ≡ true = sym (ap (λ d. is_open (record s { active_dialog = d })) e) ∙ h in cc
active_of_open s (some share_dialog) e h =
    let dead : false ≡ true = sym (ap (λ d. is_open (record s { active_dialog = d })) e) ∙ h in cc
active_of_open s (some connect_dialog) e h = refl

module _ (upper : Char → String) where
  -- The dialog reads a code that is shown if and only if it has six letters and digits.
  ReadsSix : String → String → Type 0
  ReadsSix c shown =
      (is_valid_code upper shown ≡ nat_eq (text_length c) 6) × (keep is_alnum shown ≡ c)

  reads_six :
      (c : String) → Every is_code_char c → nat_eq (text_length c) 6 ≡ true → ReadsSix c (dashed c)
  unfolding ReadsSix
  reads_six c h six =
      let all = keep-dashed c h in
      let length = code_length c h in
      let letters : count (keep is_alnum (dashed c)) ≡ 6 = ap count all ∙ ground arith in
      let typed = (extract_join_code-links upper (dashed c) (dashed-Every c h) letters).0 in
      (valid_lem upper (dashed c) ∙ rw (typed, six) refl, all)

  reads_other :
      (c : String)
      → Every is_code_char c
      → nat_eq (text_length c) 6 ≡ false
      → leb 6 (text_length c) ≡ true
      → ReadsSix c c
  unfolding ReadsSix
  reads_other c h other enough =
      let all = keep_of_Every is_alnum c (codes_are_alnum c h) in
      let length = code_length c h in
      let dash_alnum = codes_are_dash_alnum c h in
      let letters : count (keep is_alnum c) ≢ 6 = λ e. nope c h other (sym (ap count all) ∙ e) in
      let long : 6 ≤ count c = ground arith in
      let typed = (extract_join_code-other_length upper c dash_alnum letters long).0 in
      (valid_lem upper c ∙ rw (typed, not_direct c dash_alnum, other) refl, all)

  reads :
      (c : String)
      → Every is_code_char c
      → is_valid_join_code (with_dash c) ≡ true
      → ReadsSix c (with_dash c)
  reads c h valid = elim (Bool-cases (nat_eq (text_length c) 6)) [
    | inl six ↦
        subst (ReadsSix c) (sym (with_dash-eq-format_join_code c h ∙ format_six c six))
          (reads_six c h six)
    | inr other ↦
        let shown : with_dash c ≡ c = rw other refl in
        subst (ReadsSix c) (sym shown) (
          reads_other c h other
            (long_enough upper c h (subst (λ t. is_valid_join_code t ≡ true) shown valid)))
  ]

  listen_effect-host_address :
      (c : Connecting) → (listen_effect c).dialog.host_address ≡ c.dialog.host_address
  unfolding listen_effect
  listen_effect-host_address c =
      elim (Bool-cases (same_effect (is_open c.session) c.dialog c.dialog.listener)) [
        | inl e ↦ rw e refl
        | inr e ↦ rw e refl
      ]

  changed_of_Awaits :
      (code : String) (s : Session) (o : Option String)
      → s.pending_join_code ≡ o
      → Awaits code s
      → initial_code_changed s (on_deep_link_join code s) ≡ true
  unfolding initial_code_changed on_deep_link_join
  changed_of_Awaits code s o e (inl closed) = rw closed refl
  changed_of_Awaits code s none e (inr other) = rw (e, initial_code_changed) (ground arith)
  changed_of_Awaits code s (some old) e (inr other) =
      let differs : (old == code) ≡ false =
        ground (arith, eq_iff old code, λ (p : old ≡ code). other (e ∙ ap some p)) in
      rw (e, initial_code_changed, differs) (ground arith)

  shows :
      (code : String) (s : Session) (c : Connecting)
      → code ≢ ""
      → Awaits code s
      → shown_address (initial_code_effect s (record c { session = on_deep_link_join code s }))
        ≡ code
  unfolding initial_code_effect type_address on_deep_link_join
  shows code s c h awaits =
      let written : (code == "") ≡ false = ground (arith, eq_iff code "") in
      let changed = changed_of_Awaits code s _ refl awaits in
      rw (changed, written) (listen_effect-host_address _)

module _ (upper : Char → String) (raw : String)
    (valid : is_valid_join_code (normalize_join_code upper raw) ≡ true) where
  abbrev shown : String
  shown = normalize_join_code upper raw

  opened :
      (s : Session) → on_open_url upper (deep_link_url shown ∷ []) s ≡ on_deep_link_join shown s
  unfolding on_open_url
  opened s =
      ap (λ o. code_opened (truthy o) s) (extract_join_code-normalize_join_code upper raw valid).0
      ∙ ap (λ o. code_opened o s) (truthy_of_ne shown (valid-ne shown valid))

  -- A code in the address of the join page that the page takes for valid reaches the application
  -- through the deep link: it is the pending code, the dialog of connecting is open and shows it, if
  -- before the link the dialog was closed or that code was not pending. The dialog takes it for valid
  -- exactly if it has six letters and digits, where the page allows six to twelve.
  pub deep_link_url-initial_code_effect :
      (s : Session) (c : Connecting)
      → Awaits shown s
      → ((on_open_url upper (deep_link_url shown ∷ []) s).pending_join_code ≡ some shown)
        × (is_open (on_open_url upper (deep_link_url shown ∷ []) s) ≡ true)
        × (shown_address (
              initial_code_effect s
                (record c { session = on_open_url upper (deep_link_url shown ∷ []) s }))
            ≡ shown)
        × (is_valid_code upper shown ≡ nat_eq (text_length (keep is_alnum shown)) 6)
  unfolding ReadsSix on_deep_link_join normalize_join_code
  deep_link_url-initial_code_effect s c awaits =
      let bare = keep is_code_char (drop_link (trim (to_upper_case upper raw))) in
      let (reading, letters) =
        reads upper bare (keep-Every is_code_char (drop_link (trim (to_upper_case upper raw))))
          valid in
      (
        ap (λ t. t.pending_join_code) (opened s),
        ap is_open (opened s),
        ap (λ t. shown_address (initial_code_effect s (record c { session = t }))) (opened s)
            ∙ shows upper shown s c (valid-ne shown valid) awaits,
        reading ∙ ap (λ t. nat_eq (text_length t) 6) (sym letters),
      )

  unchanged :
      (s : Session) (o : Option String)
      → is_open s ≡ true
      → s.pending_join_code ≡ o
      → o ≡ some shown
      → initial_code_changed s (on_deep_link_join shown s) ≡ false
  unfolding initial_code_changed on_deep_link_join
  unchanged s none visible e f = cc
  unchanged s (some old) visible e f =
      let same : old ≡ shown = cc in
      rw (visible, e, initial_code_changed) (rw same (ap not (eq_refl shown)))

  same_session :
      (s : Session)
      → is_open s ≡ true
      → s.pending_join_code ≡ some shown
      → on_deep_link_join shown s ≡ s
  unfolding on_deep_link_join
  same_session s visible pending =
      ap (λ d. record s { pending_join_code = some shown; active_dialog = d })
        (sym (active_of_open s _ refl visible))
      ∙ ap (λ o. record s { pending_join_code = o }) (sym pending)

  -- If the dialog of connecting is open and the code is already the pending one, the deep link changes
  -- nothing: the application and the dialog stay as they are, so an address that was typed over the
  -- code stays, valid or not.
  pub deep_link_url-initial_code_effect_again :
      (c : Connecting)
      → is_open c.session ≡ true
      → c.session.pending_join_code ≡ some shown
      → initial_code_effect c.session
          (record c { session = on_open_url upper (deep_link_url shown ∷ []) c.session })
        ≡ c
  unfolding initial_code_effect on_deep_link_join
  deep_link_url-initial_code_effect_again c visible pending =
      ap (λ t. initial_code_effect c.session (record c { session = t })) (opened c.session)
      ∙ rw (unchanged c.session _ visible refl pending)
          (ap (λ t. record c { session = t }) (same_session c.session visible pending))
