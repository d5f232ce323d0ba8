-- ===== src/History/Persistence.antt =====
-- types/history.ts: `loadHistory` after `saveHistory`.
use wormhole.Common.{
  Option, none, some, ◌≡◌, refl, map, is_some, Bool-cases, List, [], ◌∷◌, arith, ap, if◌then◌else◌,
  Option-cases, inl, inr,
}
use wormhole.Storage.{LocalStorage, Json, get_item-save_json}
use wormhole.History.{
  WormholeHistory, history_storage_key, reset_share, reset_connection, reset_statuses, load_stored,
  load_history, save_history,
}

reset_shares_idem : (xs : List _) → map reset_share (map reset_share xs) ≡ map reset_share xs
reset_shares_idem [] = refl
reset_shares_idem (x ∷ xs) = ap (◌∷◌ (reset_share x)) (reset_shares_idem xs)

reset_connections_idem :
    (xs : List _) → map reset_connection (map reset_connection xs) ≡ map reset_connection xs
reset_connections_idem [] = refl
reset_connections_idem (x ∷ xs) = ap (◌∷◌ (reset_connection x)) (reset_connections_idem xs)

reset_statuses_idem : (h : WormholeHistory) → reset_statuses (reset_statuses h) ≡ reset_statuses h
unfolding reset_statuses
reset_statuses_idem h =
    ground (arith, reset_shares_idem h.shares, reset_connections_idem h.connections)

module _ {Text : Type 0} (storage : LocalStorage Text) (json : Json Text WormholeHistory) where
  open storage use {Store, set_item}
  open json use {stringify, parse, is_empty, parse-stringify, is_empty-stringify}

  load_stored-stringify :
      (h : WormholeHistory) → load_stored storage json (some (stringify h)) ≡ reset_statuses h
  unfolding load_stored
  load_stored-stringify h = rw (is_empty-stringify h, parse-stringify h) refl

  reset_statuses-load_stored :
      (o : Option Text) → reset_statuses (load_stored storage json o) ≡ load_stored storage json o
  unfolding load_stored
  reset_statuses-load_stored none = unfold reset_statuses in refl
  reset_statuses-load_stored (some stored) = elim (Bool-cases (is_empty stored)) [
    | inl e ↦ rw e (unfold reset_statuses in refl)
    | inr e ↦ elim (Option-cases (parse stored)) [
      | inl z ↦ rw (e, z) (unfold reset_statuses in refl)
      | inr (h, z) ↦ rw (e, z) (reset_statuses_idem h)
    ]
  ]

  reset_statuses-load_history :
      (s : Store) → reset_statuses (load_history storage json s) ≡ load_history storage json s
  unfolding load_history
  reset_statuses-load_history s = reset_statuses-load_stored _

  -- If the browser takes the text, a load after a save gives the history back with every share
  -- inactive and every connection disconnected, and a history of an older version as the empty one.
  -- If it does not, the load gives what it gave before the save.
  pub load-save_history :
      (s : Store) (h : WormholeHistory)
      → load_history storage json (save_history storage json s h) ≡ (
          if is_some (set_item s history_storage_key (stringify h))
          then reset_statuses h
          else load_history storage json s)
  unfolding load_history save_history
  load-save_history s h =
      elim (Bool-cases (is_some (set_item s history_storage_key (stringify h)))) [
        | inl e ↦
            rw (get_item-save_json storage json history_storage_key s h, e)
              (load_stored-stringify h)
        | inr e ↦ rw (get_item-save_json storage json history_storage_key s h, e) refl
      ]

  -- A loaded history may be saved and loaded again, whether or not the browser takes it: the load
  -- gives the same history.
  load-save-load_history :
      (s : Store)
      → load_history storage json (save_history storage json s (load_history storage json s))
        ≡ load_history storage json s
  load-save-load_history s =
      rw (load-save_history s (load_history storage json s))
        (ground (arith, reset_statuses-load_history s))
