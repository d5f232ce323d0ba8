-- ===== src/JoinPage/Attempts.antt =====
-- page.tsx: the attempt to open the app, over every sequence of what happens to the page.
use wormhole.JoinPage.{
  Platform, GitHubRelease, Page, first_page, deep_link_url, on_mount, on_release, try_deep_link,
  check_deep_link, handle_copy_code, handle_copy_link, on_copy_reset,
}
use wormhole.Common.{
  ℕ, String, ◌≡◌, refl, sym, ap, ◌∙◌, Bool, true, false, Bool-cases, ◌⊎◌, inl, inr, arith, Option,
  List, [], ◌∷◌, leb, if◌then◌else◌,
}

pub data Event : Type 0 where
  mounts : Platform → Event
  release_comes : Option GitHubRelease → Event
  attempt_fires : Event
  check_fires : Bool → ℕ → Event
  copies_code : Event
  copies_link : Event
  reset_fires : Event

abbrev pub step : String → Event → Page → Page
step join_code (mounts platform) s = on_mount platform s
step join_code (release_comes latest) s = on_release latest s
step join_code attempt_fires s = try_deep_link join_code s
step join_code (check_fires has_focus elapsed) s = check_deep_link has_focus elapsed s
step join_code copies_code s = handle_copy_code join_code s
step join_code copies_link s = handle_copy_link join_code s
step join_code reset_fires s = on_copy_reset s

abbrev pub run : String → List Event → Page → Page
run join_code [] s = s
run join_code (e ∷ es) s = run join_code es (step join_code e s)

-- Before the attempt: its timer is set as soon as the page is mounted.
abbrev pub Waits : Page → Type 0
Waits s =
    (s.attempted_deep_link ≡ false)
    × (s.tried ≡ [])
    × (s.checks_due ≡ 0)
    × (s.deep_link_failed ≡ false)
    × (s.attempt_due ≡ s.mounted)

-- After it: the one link has been opened and no timer for another one is set.
abbrev pub HasTried : String → Page → Type 0
HasTried join_code s =
    (s.attempted_deep_link ≡ true)
    × (s.tried ≡ deep_link_url join_code ∷ [])
    × (s.attempt_due ≡ false)

abbrev pub TriesOnce : String → Page → Type 0
TriesOnce join_code s = Waits s ⊎ HasTried join_code s

-- A timer that is not set leaves the page as it is.
unset :
    (join_code : String) (b : Bool) (t s : Page)
    → b ≡ false
    → TriesOnce join_code s
    → TriesOnce join_code (if b then t else s)
unset join_code true t s e h = cc
unset join_code false t s e h = h

attempt-TriesOnce :
    (join_code : String) (s : Page)
    → TriesOnce join_code s
    → TriesOnce join_code (try_deep_link join_code s)
unfolding try_deep_link
attempt-TriesOnce join_code s (inl (a, b, c, d, e)) = elim (Bool-cases s.attempt_due) [
  | inl due ↦
      let on : s.mounted ≡ true = sym e ∙ due in
      rw (due, on) (inr (refl, ap (λ t. deep_link_url join_code ∷ t) b, refl))
  | inr off ↦ unset join_code s.attempt_due _ s off (inl (a, b, c, d, e))
]
attempt-TriesOnce join_code s (inr (a, b, c)) = unset join_code s.attempt_due _ s c (inr (a, b, c))

check-TriesOnce :
    (join_code : String) (has_focus : Bool) (elapsed : ℕ) (s : Page)
    → TriesOnce join_code s
    → TriesOnce join_code (check_deep_link has_focus elapsed s)
unfolding check_deep_link
check-TriesOnce join_code has_focus elapsed s (inl (a, b, c, d, e)) =
    let off : leb 1 s.checks_due ≡ false = ground (arith, c) in
    unset join_code (leb 1 s.checks_due) _ s off (inl (a, b, c, d, e))
check-TriesOnce join_code has_focus elapsed s (inr h) = elim (Bool-cases (leb 1 s.checks_due)) [
  | inl due ↦ rw due (inr h)
  | inr off ↦ rw off (inr h)
]

reset-TriesOnce :
    (join_code : String) (s : Page) → TriesOnce join_code s → TriesOnce join_code (on_copy_reset s)
unfolding on_copy_reset
reset-TriesOnce join_code s h = elim (Bool-cases (leb 1 s.resets_due)) [
  | inl due ↦ rw due h
  | inr off ↦ rw off h
]

step-TriesOnce :
    (join_code : String) (e : Event) (s : Page)
    → TriesOnce join_code s
    → TriesOnce join_code (step join_code e s)
unfolding on_mount on_release handle_copy_code handle_copy_link
step-TriesOnce join_code (mounts platform) s (inl (a, b, c, d, e)) = inl (a, b, c, d, rw a refl)
step-TriesOnce join_code (mounts platform) s (inr (a, b, c)) = inr (a, b, rw a refl)
step-TriesOnce join_code (release_comes latest) s h = h
step-TriesOnce join_code attempt_fires s h = attempt-TriesOnce join_code s h
step-TriesOnce join_code (check_fires has_focus elapsed) s h =
    check-TriesOnce join_code has_focus elapsed s h
step-TriesOnce join_code copies_code s h = h
step-TriesOnce join_code copies_link s h = h
step-TriesOnce join_code reset_fires s h = reset-TriesOnce join_code s h

run-TriesOnce_from :
    (join_code : String) (events : List Event) (s : Page)
    → TriesOnce join_code s
    → TriesOnce join_code (run join_code events s)
run-TriesOnce_from join_code [] s h = h
run-TriesOnce_from join_code (e ∷ es) s h =
    run-TriesOnce_from join_code es (step join_code e s) (step-TriesOnce join_code e s h)

-- Whatever happens to the page, and in whatever order its timers fire: it opens the deep link of its
-- code at most once by itself; until then nothing is shown as failed and, once the page is mounted,
-- the timer of the attempt is set, and after it that timer is not set again.
pub run-TriesOnce :
    (join_code : String) (events : List Event)
    → TriesOnce join_code (run join_code events first_page)
run-TriesOnce join_code events =
    run-TriesOnce_from join_code events first_page (inl (refl, refl, refl, refl, refl))
