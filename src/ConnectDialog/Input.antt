-- ===== src/ConnectDialog/Input.antt =====
-- App.tsx: the address that is shown as valid and the address that Connect takes.
use Prim.Native.Char.{Char, code}
use wormhole.Texts.{contains, trim, trim_start, trim_end, is_empty, is_space}
use wormhole.Texts.Laws.{Every}
use wormhole.JoinCode.{extract_join_code, from_plain, extract_from, deep_path}
use wormhole.ConnectDialog.{ConnectDialog, is_direct, is_valid_code, connect_to, handle_connect}
use wormhole.Common.{
  truthy, String, ◌≡◌, ◌≢◌, refl, sym, ap, ◌∙◌, true, false, Bool-cases, inl, inr, ◌&&◌, ◌||◌, not,
  ◌==◌, eq_iff, Option, none, some, is_some, arith, nat_eq,
}

trim_end-space : (s : String) → is_empty (trim_end s) ≡ true → Every is_space s
trim_end-space String.[] h = tt
trim_end-space (String.◌∷◌ c s) h = elim (Bool-cases (is_space (code c))) [
  | inl space ↦ elim (Bool-cases (is_empty (trim_end s))) [
    | inl rest ↦ (space, trim_end-space s rest)
    | inr rest ↦ let dead : false ≡ true = rw (space, rest) at h in cc
  ]
  | inr other ↦ let dead : false ≡ true = rw other at h in cc
]

trim_start-space : (s : String) → Every is_space (trim_start s) → Every is_space s
trim_start-space String.[] h = tt
trim_start-space (String.◌∷◌ c s) h = elim (Bool-cases (is_space (code c))) [
  | inl space ↦ (space, trim_start-space s (rw space at h))
  | inr other ↦ (rw other at h)
]

pub no_colon : (s : String) → Every is_space s → contains s ":" ≡ false
no_colon String.[] h = refl
no_colon (String.◌∷◌ c s) h =
    let other : nat_eq (code c) b':' ≡ false = ground (arith, h.0) in rw other (no_colon s h.1)

-- A text of spaces is no address.
blank-direct : (s : String) → is_empty (trim s) ≡ true → is_direct s ≡ false
blank-direct s blank =
    ap (λ b. b && not (contains s "://")) (no_colon s (trim_start-space s (trim_end-space _ blank)))

empty_text : (s : String) → is_empty s ≡ true → s ≡ ""
empty_text String.[] h = refl
empty_text (String.◌∷◌ c s) h = cc

module _ (upper : Char → String) where
  blank-code : (s : String) → is_empty (trim s) ≡ true → extract_join_code upper s ≡ none
  unfolding extract_join_code from_plain
  blank-code s blank = ap (λ t. extract_from upper t (deep_path t)) (empty_text (trim s) blank)

  pub valid_lem :
      (s : String) → is_valid_code upper s ≡ (is_some (extract_join_code upper s) || is_direct s)
  unfolding is_valid_code
  valid_lem s = elim (Bool-cases (is_empty (trim s))) [
    | inl blank ↦ rw (blank, blank-code s blank, blank-direct s blank) refl
    | inr written ↦ rw written refl
  ]

  truthy_lem : (o : Option String) → o ≢ some "" → truthy o ≡ o
  truthy_lem none h = refl
  truthy_lem (some s) h = elim (Bool-cases (s == "")) [
    | inl e ↦ absurd (h (ap some ((eq_iff s "").0 e)))
    | inr e ↦ rw e refl
  ]

  asked :
      (new_id : String) (d : ConnectDialog) (o : Option String)
      → is_some (connect_to new_id d o).1 ≡ (is_some o || is_direct d.host_address)
  asked new_id d (some code) = refl
  asked new_id d none = elim (Bool-cases (is_direct d.host_address)) [
    | inl e ↦ rw e refl
    | inr e ↦ rw e refl
  ]

  -- Where a folder is chosen, Connect calls the backend exactly if the dialog shows the address as
  -- valid, unless the address is read as the empty join code.
  pub handle_connect-is_valid_code :
      (new_connection_id : String) (d : ConnectDialog)
      → d.mount_path ≢ ""
      → extract_join_code upper d.host_address ≢ some ""
      → is_some (handle_connect upper new_connection_id d).1 ≡ is_valid_code upper d.host_address
  unfolding handle_connect
  handle_connect-is_valid_code new_connection_id d chosen coded =
      let mount : (d.mount_path == "") ≡ false = ground (arith, eq_iff d.mount_path "") in
      elim (Bool-cases (d.host_address == "")) [
        | inl blank ↦ rw blank (
            sym (
              ap (is_valid_code upper) ((eq_iff d.host_address "").0 blank)
              ∙ valid_lem ""
              ∙ ap (λ o. is_some o || false) (blank-code "" refl)))
        | inr written ↦
            rw (written, mount, truthy_lem _ coded)
              (asked new_connection_id d (extract_join_code upper d.host_address)
                ∙ sym (valid_lem d.host_address))
      ]
