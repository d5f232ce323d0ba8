-- ===== src/History/Lookup.antt =====
-- types/history.ts: what can be found in a history after an operation, and the invariant.
use wormhole.Common.{
  String, Option, none, some, ◌≡◌, refl, find, ◌==◌, if◌then◌else◌, has_key, Distinct, find-upsert,
  find-update_where, find-remove_where, Distinct-upsert, Distinct-upsert_other_key, Unclaimed,
  Distinct-filter, Distinct-map, arith,
}
use mathlib.Core.Option
use wormhole.History.{
  ShareHistoryItem, ConnectionHistoryItem, WormholeHistory, SharePatch, ConnectionPatch,
  patch_share, patch_connection, update_share_in_history, update_connection_in_history,
  add_share_to_history, add_connection_to_history, remove_share_from_history,
  remove_connection_from_history,
}

-- The abstract view: a share is found by its path, a connection by its join code, and both by
-- their identifiers.
abbrev pub share_at : WormholeHistory → String → Option ShareHistoryItem
share_at h path = find (has_key (λ s. s.path) path) h.shares

abbrev pub share_of_id : WormholeHistory → String → Option ShareHistoryItem
share_of_id h id = find (has_key (λ s. s.id) id) h.shares

abbrev pub connection_at : WormholeHistory → String → Option ConnectionHistoryItem
connection_at h code = find (has_key (λ c. c.join_code) code) h.connections

abbrev pub connection_of_id : WormholeHistory → String → Option ConnectionHistoryItem
connection_of_id h id = find (has_key (λ c. c.id) id) h.connections

-- No two shares have one path or one identifier, and no two connections one join code or one
-- identifier.
pub record IsConsistent (h : WormholeHistory) : Type 0 where
  pub paths : Distinct (λ s. s.path) h.shares
  pub share_ids : Distinct (λ s. s.id) h.shares
  pub codes : Distinct (λ c. c.join_code) h.connections
  pub connection_ids : Distinct (λ c. c.id) h.connections

module _ (h : WormholeHistory) where
  -- After `addShareToHistory` the share's path leads to it, every other path to what it led to
  -- before, and the connections are as they were.
  pub share_at-add_share :
      (s : ShareHistoryItem) (q : String)
      → (share_at (add_share_to_history h s) q ≡ (if s.path == q then some s else share_at h q))
        × ((add_share_to_history h s).connections ≡ h.connections)
  unfolding add_share_to_history
  share_at-add_share s q = (find-upsert (λ s. s.path) s q h.shares, refl)

  -- After `addConnectionToHistory` the connection's join code leads to it, every other code to what
  -- it led to before, and the shares are as they were.
  pub connection_at-add_connection :
      (c : ConnectionHistoryItem) (q : String)
      → (connection_at (add_connection_to_history h c) q
          ≡ (if c.join_code == q then some c else connection_at h q))
        × ((add_connection_to_history h c).shares ≡ h.shares)
  unfolding add_connection_to_history
  connection_at-add_connection c q = (find-upsert (λ c. c.join_code) c q h.connections, refl)

  -- After an update that gives no identifier the identifier leads to the patched share, and every
  -- other identifier to what it led to before.
  pub share_of_id-update_share :
      (id q : String) (u : SharePatch)
      → u.id ≡ none
      → share_of_id (update_share_in_history h id u) q
        ≡ (if id == q then Option.map (patch_share u) (share_of_id h q) else share_of_id h q)
  unfolding update_share_in_history patch_share
  share_of_id-update_share id q u e =
      find-update_where (λ s. s.id) id q (patch_share u) h.shares (λ s. ground arith)

  pub connection_of_id-update_connection :
      (id q : String) (u : ConnectionPatch)
      → u.id ≡ none
      → connection_of_id (update_connection_in_history h id u) q ≡ (
          if id == q
          then Option.map (patch_connection u) (connection_of_id h q)
          else connection_of_id h q)
  unfolding update_connection_in_history patch_connection
  connection_of_id-update_connection id q u e =
      find-update_where (λ c. c.id) id q (patch_connection u) h.connections (λ c. ground arith)

  share_of_id-remove_share :
      (id q : String)
      → share_of_id (remove_share_from_history h id) q ≡ (if id == q then none else share_of_id h q)
  unfolding remove_share_from_history
  share_of_id-remove_share id q = find-remove_where (λ s. s.id) id q h.shares

  connection_of_id-remove_connection :
      (id q : String)
      → connection_of_id (remove_connection_from_history h id) q
        ≡ (if id == q then none else connection_of_id h q)
  unfolding remove_connection_from_history
  connection_of_id-remove_connection id q = find-remove_where (λ c. c.id) id q h.connections

module _ {h : WormholeHistory} where
  -- Adding a share whose identifier no share of another path has keeps paths and identifiers distinct.
  pub add_share-IsConsistent :
      (s : ShareHistoryItem)
      → Unclaimed (λ t. t.path) (λ t. t.id) s h.shares
      → IsConsistent h
      → IsConsistent (add_share_to_history h s)
  unfolding add_share_to_history
  add_share-IsConsistent s fresh v = record {
    paths = Distinct-upsert (λ t. t.path) s h.shares v.paths;
    share_ids =
        Distinct-upsert_other_key (λ t. t.path) (λ t. t.id) s h.shares v.paths fresh v.share_ids;
    codes = v.codes;
    connection_ids = v.connection_ids;
  }

  pub add_connection-IsConsistent :
      (c : ConnectionHistoryItem)
      → Unclaimed (λ d. d.join_code) (λ d. d.id) c h.connections
      → IsConsistent h
      → IsConsistent (add_connection_to_history h c)
  unfolding add_connection_to_history
  add_connection-IsConsistent c fresh v = record {
    paths = v.paths;
    share_ids = v.share_ids;
    codes = Distinct-upsert (λ d. d.join_code) c h.connections v.codes;
    connection_ids =
        Distinct-upsert_other_key (λ d. d.join_code) (λ d. d.id) c h.connections v.codes fresh
          v.connection_ids;
  }

  pub update_share-IsConsistent :
      (id : String) (u : SharePatch)
      → u.id ≡ none
      → u.path ≡ none
      → IsConsistent h
      → IsConsistent (update_share_in_history h id u)
  unfolding update_share_in_history patch_share
  update_share-IsConsistent id u e f v = record {
    paths = Distinct-map (λ t. t.path) _ h.shares (λ s. ground arith) v.paths;
    share_ids = Distinct-map (λ t. t.id) _ h.shares (λ s. ground arith) v.share_ids;
    codes = v.codes;
    connection_ids = v.connection_ids;
  }

  pub update_connection-IsConsistent :
      (id : String) (u : ConnectionPatch)
      → u.id ≡ none
      → u.join_code ≡ none
      → IsConsistent h
      → IsConsistent (update_connection_in_history h id u)
  unfolding update_connection_in_history patch_connection
  update_connection-IsConsistent id u e f v = record {
    paths = v.paths;
    share_ids = v.share_ids;
    codes = Distinct-map (λ t. t.join_code) _ h.connections (λ s. ground arith) v.codes;
    connection_ids = Distinct-map (λ t. t.id) _ h.connections (λ s. ground arith) v.connection_ids;
  }

  pub remove_share-IsConsistent :
      (id : String) → IsConsistent h → IsConsistent (remove_share_from_history h id)
  unfolding remove_share_from_history
  remove_share-IsConsistent id v = record {
    paths = Distinct-filter (λ t. t.path) _ h.shares v.paths;
    share_ids = Distinct-filter (λ t. t.id) _ h.shares v.share_ids;
    codes = v.codes;
    connection_ids = v.connection_ids;
  }

  pub remove_connection-IsConsistent :
      (id : String) → IsConsistent h → IsConsistent (remove_connection_from_history h id)
  unfolding remove_connection_from_history
  remove_connection-IsConsistent id v = record {
    paths = v.paths;
    share_ids = v.share_ids;
    codes = Distinct-filter (λ t. t.join_code) _ h.connections v.codes;
    connection_ids = Distinct-filter (λ t. t.id) _ h.connections v.connection_ids;
  }
