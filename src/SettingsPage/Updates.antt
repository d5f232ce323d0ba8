-- ===== src/SettingsPage/Updates.antt =====
-- App.tsx and commands.rs: what the settings page says of updates.
use Prim.Native.Char.{Char}
use Prim.Native.String
use mathlib.Core.Path.{subst}
use wormhole.Texts.{is_empty, glue}
use wormhole.Texts.Laws.{append-eq-glue}
use wormhole.Telemetry.{State}
use wormhole.SettingsPage.{
  UpdateInfo, LatestRelease, Response, released, no_client, unreachable, unreadable, refused,
  update_of, compared, of_release, check_for_updates, app_version, Settings, first_settings,
  check_clicked, update_answered, headline, available, checked_at, click_to_check, says_latest,
  toggle_details,
}
use wormhole.Common.{
  ℕ, String, ◌≡◌, ◌≢◌, refl, sym, ap, ◌∙◌, Bool, true, false, not, ◌⊎◌, inl, inr, Bool-cases,
  Option, none, some, ◌==◌, eq_iff, List, [], ◌∷◌, nat_eq, if◌then◌else◌, arith,
}

module _ {Version : Type 0} (parse : String → String ⊎ Version) (newer : Version → Version → Bool)
    (show_status : ℕ → String) where
  abbrev pub check : String → Response → String ⊎ Option UpdateInfo
  check = check_for_updates parse newer show_status

  -- The answers that have come back, the last one first, each with its time.
  pub data Run (telemetry : State) : List (Response × ℕ) → Settings → Type 0 where
    opened : Run telemetry [] (first_settings telemetry)
    clicks :
        {rs : List (Response × ℕ)} {s : Settings}
        → Run telemetry rs s
        → Run telemetry rs (check_clicked s)
    answers :
        {rs : List (Response × ℕ)} {s : Settings} (r : Response) (now : ℕ)
        → Run telemetry rs s
        → s.checking_update ≡ true
        → Run telemetry ((r, now) ∷ rs) (update_answered (check app_version r) now s)
    toggles :
        {rs : List (Response × ℕ)} {s : Settings}
        → Run telemetry rs s
        → Run telemetry rs (toggle_details s)
    tells :
        {rs : List (Response × ℕ)} {s : Settings} (t : State)
        → Run telemetry rs s
        → Run telemetry rs (record s { telemetry = t })

  abbrev pub kept {ℓ} : {A : Type ℓ} → String ⊎ Option UpdateInfo → A → A → A
  kept (inl message) found before = before
  kept (inr result) found before = found

  -- The update and the time of the last check that went well.
  abbrev pub found_update : String ⊎ Option UpdateInfo → Option UpdateInfo → Option UpdateInfo
  found_update (inl message) before = before
  found_update (inr result) before = result

  abbrev pub last_info : List (Response × ℕ) → Option UpdateInfo
  last_info [] = none
  last_info ((r, now) ∷ rs) = found_update (check app_version r) (last_info rs)

  abbrev pub last_time : List (Response × ℕ) → Option ℕ
  last_time [] = none
  last_time ((r, now) ∷ rs) = kept (check app_version r) (some now) (last_time rs)

  abbrev pub is_latest_at : String ⊎ Option UpdateInfo → ℕ → Bool
  is_latest_at (inl message) now = false
  is_latest_at (inr none) now = not (nat_eq now 0)
  is_latest_at (inr (some info)) now = false

  -- Whether the last check, and not only an earlier one, found no newer version.
  abbrev pub found_none : List (Response × ℕ) → Bool
  found_none [] = false
  found_none ((r, now) ∷ rs) = is_latest_at (check app_version r) now

  pub record Reports (rs : List (Response × ℕ)) (s : Settings) : Type 0 where
    pub info : s.update_info ≡ last_info rs
    pub time : s.last_checked ≡ last_time rs
    pub offers :
        (info : UpdateInfo) → last_info rs ≡ some info → headline s ≡ available info.version
    pub names_time :
        (t : ℕ) → last_info rs ≡ none → last_time rs ≡ some t → t ≢ 0 → headline s ≡ checked_at t
    pub asks : last_info rs ≡ none → last_time rs ≡ none → headline s ≡ click_to_check
    pub clear : s.checking_update ≡ true → s.update_error ≡ none
    pub latest : s.checking_update ≡ false → says_latest s ≡ found_none rs

  module _ (rs : List (Response × ℕ)) (s : Settings) (info : s.update_info ≡ last_info rs)
      (time : s.last_checked ≡ last_time rs) where
    headline-available : (i : UpdateInfo) → last_info rs ≡ some i → headline s ≡ available i.version
    unfolding headline
    headline-available i e = rw (info ∙ e) refl

    headline-checked_at :
        (t : ℕ) → last_info rs ≡ none → last_time rs ≡ some t → t ≢ 0 → headline s ≡ checked_at t
    unfolding headline
    headline-checked_at t e f ne =
        let set : nat_eq t 0 ≡ false = ground arith in rw (info ∙ e, time ∙ f, set) refl

    headline-click_to_check :
        last_info rs ≡ none → last_time rs ≡ none → headline s ≡ click_to_check
    unfolding headline
    headline-click_to_check e f = rw (info ∙ e, time ∙ f) refl

  -- A report from what the state holds.
  reports :
      (rs : List (Response × ℕ)) (s : Settings)
      → s.update_info ≡ last_info rs
      → s.last_checked ≡ last_time rs
      → (s.checking_update ≡ true → s.update_error ≡ none)
      → (s.checking_update ≡ false → says_latest s ≡ found_none rs)
      → Reports rs s
  reports rs s info time clear latest = record {
    info = info;
    time = time;
    offers = headline-available rs s info time;
    names_time = headline-checked_at rs s info time;
    asks = headline-click_to_check rs s info time;
    clear = clear;
    latest = latest;
  }

  starts : (c : Char) (s : String) → not (String.◌∷◌ c s == "") ≡ true
  starts c s = elim (Bool-cases (String.◌∷◌ c s == "")) [
    | inl e ↦ let dead = (eq_iff (String.◌∷◌ c s) "").0 e in cc
    | inr e ↦ rw e refl
  ]

  prefixed : (p e : String) → is_empty p ≡ false → not (String.◌++◌ p e == "") ≡ true
  prefixed String.[] e h = cc
  prefixed (String.◌∷◌ c p) e h =
      ap (λ t. not (t == "")) (append-eq-glue (String.◌∷◌ c p) e) ∙ starts c (glue p e)

  -- An error has a text.
  abbrev has_text : String ⊎ Option UpdateInfo → Bool
  has_text (inl message) = not (message == "")
  has_text (inr result) = true

  compared-has_text :
      (release : LatestRelease) (tag current : String) (o c : String ⊎ Version)
      → has_text (compared parse newer show_status release tag current o c) ≡ true
  compared-has_text release tag current (inl e) c = prefixed "Invalid " _ refl
  compared-has_text release tag current (inr l) (inl e) = prefixed "Invalid " _ refl
  compared-has_text release tag current (inr l) (inr v) = elim (Bool-cases (newer l v)) [
    | inl e ↦ rw e refl
    | inr e ↦ rw e refl
  ]

  of_release-has_text :
      (current : String) (release : LatestRelease) (tag : Option String)
      → has_text (of_release parse newer show_status current release tag) ≡ true
  of_release-has_text current release none = refl
  of_release-has_text current release (some tag) = compared-has_text release tag current _ _

  check-has_text : (current : String) (r : Response) → has_text (check current r) ≡ true
  unfolding check_for_updates
  check-has_text current (no_client e) = prefixed "Failed to create HTTP client: " e refl
  check-has_text current (unreachable e) = prefixed "Failed to fetch releases: " e refl
  check-has_text current (unreadable e) = prefixed "Failed to parse release: " e refl
  check-has_text current (refused status) = elim (Bool-cases (nat_eq status 404)) [
    | inl e ↦ rw e refl
    | inr e ↦ rw e (prefixed "GitHub API error: " (show_status status) refl)
  ]
  check-has_text current (released release) = of_release-has_text current release release.tag_name

  answered-latest :
      (o : String ⊎ Option UpdateInfo) (now : ℕ) (s : Settings)
      → has_text o ≡ true
      → s.update_error ≡ none
      → says_latest (update_answered o now s) ≡ is_latest_at o now
  unfolding says_latest update_answered
  answered-latest (inl m) now s h clear =
      let text : (m == "") ≡ false = ground (arith, h) in rw text (ground arith)
  answered-latest (inr none) now s h clear = rw clear (ground arith)
  answered-latest (inr (some info)) now s h clear = ground arith

  answered-info :
      (o : String ⊎ Option UpdateInfo) (now : ℕ) (s : Settings)
      → (update_answered o now s).update_info ≡ found_update o s.update_info
  unfolding update_answered
  answered-info (inl m) now s = refl
  answered-info (inr r) now s = refl

  answered-time :
      (o : String ⊎ Option UpdateInfo) (now : ℕ) (s : Settings)
      → (update_answered o now s).last_checked ≡ kept o (some now) s.last_checked
  unfolding update_answered
  answered-time (inl m) now s = refl
  answered-time (inr r) now s = refl

  answered-clear :
      (o : String ⊎ Option UpdateInfo) (now : ℕ) (s : Settings)
      → (update_answered o now s).checking_update ≡ true
      → (update_answered o now s).update_error ≡ none
  unfolding update_answered
  answered-clear (inl m) now s dead = cc
  answered-clear (inr r) now s dead = cc

  clicked-Reports :
      (rs : List (Response × ℕ)) (s : Settings) → Reports rs s → Reports rs (check_clicked s)
  unfolding check_clicked says_latest
  clicked-Reports rs s h =
      let clicked =
        λ (b : Bool). if b then s else record s { checking_update = true; update_error = none } in
      elim (Bool-cases s.checking_update) [
        | inl e ↦ subst (Reports rs) (sym (ap clicked e)) h
        | inr e ↦
            subst (Reports rs) (sym (ap clicked e))
              (reports rs (clicked false) h.info h.time (λ checking. refl) (λ dead. cc))
      ]

  -- In every run of the settings page it offers the newer version that the last check that went well
  -- found. If that check found none, the page names the time of the check, if it is not 0, and if no
  -- check went well it asks for one. When no check is under way, the page says that the client is the
  -- latest version exactly if the last check of all went well, at a time other than 0, and found no
  -- newer version.
  pub Run-Reports :
      {telemetry : State} {rs : List (Response × ℕ)} {s : Settings}
      → Run telemetry rs s
      → Reports rs s
  unfolding toggle_details says_latest
  Run-Reports opened = reports [] _ refl refl (λ idle. refl) (λ idle. refl)
  Run-Reports (clicks r) = clicked-Reports _ _ (Run-Reports r)
  Run-Reports (answers {rs} {s} r now run e) =
      let before = Run-Reports run in
      reports _ _
        (answered-info (check app_version r) now s
          ∙ ap (found_update (check app_version r)) before.info)
        (answered-time (check app_version r) now s
          ∙ ap (kept (check app_version r) (some now)) before.time)
        (answered-clear (check app_version r) now s)
        (λ done.
          answered-latest (check app_version r) now s (check-has_text app_version r)
            (before.clear e))
  Run-Reports (toggles r) = let h = Run-Reports r in reports _ _ h.info h.time h.clear h.latest
  Run-Reports (tells t r) = let h = Run-Reports r in reports _ _ h.info h.time h.clear h.latest

  abbrev offered : UpdateInfo → String ⊎ Option UpdateInfo → UpdateInfo
  offered other (inl message) = other
  offered other (inr none) = other
  offered other (inr (some info)) = info

  abbrev newer_or_none : Bool → UpdateInfo → String ⊎ Option UpdateInfo
  newer_or_none b info = if b then inr (some info) else inr none

  offered-newer_or_none :
      (b : Bool) (found info : UpdateInfo) → newer_or_none b found ≡ inr (some info) → info ≡ found
  offered-newer_or_none true found info h = sym (ap (offered info) h)
  offered-newer_or_none false found info h = cc

  never_offered :
      (b : Bool) (message : String) (info : UpdateInfo)
      → (if b then inr none else inl message) ≢ inr (some info)
  never_offered true message info h = cc
  never_offered false message info h = cc

  is_update :
      (release : LatestRelease) (tag current : String) (o c : String ⊎ Version) (info : UpdateInfo)
      → compared parse newer show_status release tag current o c ≡ inr (some info)
      → (info ≡ update_of tag release) × ((v : Version) × (o ≡ inr v))
  is_update release tag current (inl e) c info h = cc
  is_update release tag current (inr l) (inl e) info h = cc
  is_update release tag current (inr l) (inr v) info h =
      (offered-newer_or_none (newer l v) (update_of tag release) info h, (l, refl))

  same_release :
      (release : LatestRelease) (tag : Option String) (current : String) (info : UpdateInfo)
      → ((v : Version) → newer v v ≡ false)
      → of_release parse newer show_status current release tag ≡ inr (some info)
      → of_release parse newer show_status info.version release tag ≡ inr none
  same_release release none current info never h = cc
  same_release release (some tag) current info never h =
      let (same, (v, read)) = is_update release tag current _ _ info h in
      rw (same, read, never v) refl

  -- Who installs the version that is offered is told, as long as no other release follows, that there
  -- is no newer one. No version is newer than itself.
  check_for_updates-installed :
      (current_version : String) (r : Response) (info : UpdateInfo)
      → ((v : Version) → newer v v ≡ false)
      → check_for_updates parse newer show_status current_version r ≡ inr (some info)
      → check_for_updates parse newer show_status info.version r ≡ inr none
  unfolding check_for_updates
  check_for_updates-installed current (no_client e) info never h = cc
  check_for_updates-installed current (unreachable e) info never h = cc
  check_for_updates-installed current (unreadable e) info never h = cc
  check_for_updates-installed current (refused status) info never h =
      absurd (never_offered (nat_eq status 404) _ info h)
  check_for_updates-installed current (released release) info never h =
      same_release release release.tag_name current info never h
