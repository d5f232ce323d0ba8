-- ===== src/ConnectDialog/Listeners.antt =====
-- App.tsx: the listeners of `mount-event` that a clean-up came too early for.
use Prim.Native.Char.{Char}
use mathlib.Core.Path.{subst}
use wormhole.ConnectDialog.{
  Listener, ConnectDialog, Connecting, Fresh, clean_up, same_effect, is_open, listen_effect,
  type_address, mount_ready, mount_ready_leaked, reported_code,
}
use wormhole.ConnectDialog.Created.{IsListed, created-IsListed, history-listen_effect}
use wormhole.Common.{
  ℕ, String, ◌≡◌, refl, sym, ap, ◌∙◌, Bool, true, false, not, ◌&&◌, Bool-cases, ◌⊎◌, inl, inr,
  Option, none, some, List, [], ◌∷◌, ◌++◌, ◌==◌, get_elem?, length, option_or_default, arith,
}
use wormhole.ConnectDialog.Runs.{Run, Run-Kept}

ready_IsListed :
    (upper : Char → String) (i : ℕ) (m : Listener) (mountpoint : String) (fresh : Fresh)
    (t : Connecting)
    → get_elem? t.dialog.leaked i ≡ some m
    → (m.registered && not m.has_emitted) ≡ true
    → IsListed
        (reported_code upper m.host_address)
        mountpoint
        (option_or_default (some m.connection_id) fresh.id)
        (mount_ready_leaked upper i mountpoint fresh t).session.history
unfolding mount_ready_leaked mount_ready
ready_IsListed upper i m mountpoint fresh t at hears =
    rw (at, mount_ready_leaked, hears)
      (subst
        (λ u.
          IsListed (reported_code upper m.host_address) mountpoint
            (option_or_default (some m.connection_id) fresh.id) u.history)
        (sym (history-listen_effect _))
        (created-IsListed (reported_code upper m.host_address) mountpoint m.connection_id fresh
          t.session))

leaked-IsListed :
    (upper : Char → String) (s t : Connecting) (i : ℕ) (l : Listener) (mountpoint : String)
    (fresh : Fresh)
    → get_elem? s.dialog.leaked i ≡ some l
    → Run upper s t
    → (m : Listener) × ((get_elem? t.dialog.leaked i ≡ some m)
        × ((m.host_address ≡ l.host_address) × (m.connection_id ≡ l.connection_id))
        × ((m.registered ≡ false)
            ⊎ ((m.has_emitted ≡ true)
                ⊎ IsListed
                    (reported_code upper l.host_address)
                    mountpoint
                    (option_or_default (some l.connection_id) fresh.id)
                    (mount_ready_leaked upper i mountpoint fresh t).session.history)))
leaked-IsListed upper s t i l mountpoint fresh at run =
    let (m, (still, (host, id))) =
      Run-Kept l.host_address l.connection_id i run (l, (at, (refl, refl))) in
    (
      m,
      (
        still,
        (host, id),
        elim (Bool-cases m.registered) [
          | inr deaf ↦ inl deaf
          | inl hears ↦ elim (Bool-cases m.has_emitted) [
            | inl done ↦ inr (inl done)
            | inr first ↦ inr (
                inr (
                  subst
                    (λ h.
                      IsListed (reported_code upper h) mountpoint
                        (option_or_default (some l.connection_id) fresh.id)
                        (mount_ready_leaked upper i mountpoint fresh t).session.history)
                    host
                    (subst
                      (λ c.
                        IsListed (reported_code upper m.host_address) mountpoint
                          (option_or_default (some c) fresh.id)
                          (mount_ready_leaked upper i mountpoint fresh t).session.history)
                      id (ready_IsListed upper i m mountpoint fresh t still (ground arith)))))
          ]
        ],
      ),
    )

never_same :
    (opened : Bool) (d : ConnectDialog) (o : Option Listener) (l : Listener)
    → o ≡ some l
    → (l.host_address == d.host_address) ≡ false
    → same_effect opened d o ≡ false
never_same opened d none l e other = cc
never_same true d (some k) l e other = ground (arith, e, other)
never_same false d (some k) l e other = refl

too_early :
    (o : Option Listener) (l : Listener) (leaked : List Listener)
    → o ≡ some l
    → l.registered ≡ false
    → clean_up o leaked ≡ leaked ++ l ∷ []
too_early none l leaked e deaf = cc
too_early (some k) l leaked e deaf = let same : k ≡ l = cc in rw same (ground (arith, deaf))

type_address-leaked :
    (s : Connecting) (l : Listener) (host_address : String)
    → s.dialog.listener ≡ some l
    → l.registered ≡ false
    → (l.host_address == host_address) ≡ false
    → (type_address host_address s).dialog.leaked ≡ s.dialog.leaked ++ l ∷ []
unfolding type_address listen_effect
type_address-leaked s l host_address at deaf other =
    rw
      (never_same (is_open s.session) (record s.dialog { host_address = host_address })
        s.dialog.listener l at other)
      (too_early s.dialog.listener l s.dialog.leaked at deaf)

get_elem?-last : (xs : List Listener) (l : Listener) → get_elem? (xs ++ l ∷ []) (length xs) ≡ some l
get_elem?-last [] l = refl
get_elem?-last (x ∷ xs) l = get_elem?-last xs l

-- If the address is changed before `listen` has answered for the one before, then the listener of the
-- one before joins those that no clean-up takes off: after any run in which the dialog stays mounted
-- it is still there, in its place and with the address and the identifier it captured, and unless it does not hear events yet or has heard
-- one, the next mount puts a connected connection of that address and identifier into the history.
pub typed_over-IsListed :
    (upper : Char → String) (s t : Connecting) (l : Listener) (host_address : String)
    (mountpoint : String) (fresh : Fresh)
    → s.dialog.listener ≡ some l
    → l.registered ≡ false
    → (l.host_address == host_address) ≡ false
    → Run upper (type_address host_address s) t
    → let i = length s.dialog.leaked in
      (m : Listener) × ((get_elem? t.dialog.leaked i ≡ some m)
        × ((m.host_address ≡ l.host_address) × (m.connection_id ≡ l.connection_id))
        × ((m.registered ≡ false)
            ⊎ ((m.has_emitted ≡ true)
                ⊎ IsListed
                    (reported_code upper l.host_address)
                    mountpoint
                    (option_or_default (some l.connection_id) fresh.id)
                    (mount_ready_leaked upper i mountpoint fresh t).session.history)))
typed_over-IsListed upper s t l host_address mountpoint fresh at deaf other run =
    let leak = type_address-leaked s l host_address at deaf other in
    leaked-IsListed upper (type_address host_address s) t (length s.dialog.leaked) l mountpoint
      fresh
      (ap (λ xs. get_elem? xs (length s.dialog.leaked)) leak ∙ get_elem?-last s.dialog.leaked l) run
