-- ===== src/HistoryHook/Links.antt =====
-- useWormholeHistory.ts: whether the share link that is shown holds the share's join code.
use text.Mathlib.TextLemmas.{append_cancel_left}
use wormhole.HistoryHook.{
  HostInfo, sync_share, make_share_link, new_share, add_share, set_share_status, share_status_patch,
  remove_share, wormhole_base_url,
}
use wormhole.History.{
  ShareStatus, ShareHistoryItem, WormholeHistory, patch_share, add_share_to_history,
  remove_share_from_history, update_share_in_history, ExpirationOption,
}
use wormhole.Common.{
  ℕ, String, ◌≡◌, refl, sym, ◌∙◌, ◌≢◌, Option, none, some, List, arith, find, All, All-filter,
  All-set, All-map, has_key, write,
}

abbrev pub LinkMatches : ShareHistoryItem → Type 0
LinkMatches s = s.share_link ≡ make_share_link s.join_code

-- Different join codes have different links.
pub make_share_link_injective : (a b : String) → make_share_link a ≡ make_share_link b → a ≡ b
unfolding make_share_link
make_share_link_injective a b e =
    append_cancel_left "/j/" a b (append_cancel_left wormhole_base_url _ _ e)

All-write {ℓ} :
    {A : Type ℓ} (P : A → Type 0) (x : A) (xs : List A) (o : Option ℕ)
    → P x
    → All P xs
    → All P (write x xs o)
All-write P x xs none p h = (p, h)
All-write P x xs (some i) p h = All-set P xs i x h p

add_share-LinkMatches :
    (h : WormholeHistory) (path join_code : String) (port : ℕ) (name id : Option String)
    (expiration : Option ExpirationOption) (expires_at : Option ℕ) (fresh : String)
    (created_at last_active_at : ℕ)
    → All LinkMatches h.shares
    → All LinkMatches
        (add_share h (
          new_share path join_code port name id expiration expires_at fresh created_at
            last_active_at)).0.shares
unfolding add_share new_share add_share_to_history
add_share-LinkMatches h path join_code port name id expiration expires_at fresh c l v =
    All-write LinkMatches _ h.shares _ refl v

set_share_status-LinkMatches :
    (h : WormholeHistory) (k : String) (status : ShareStatus) (now : ℕ)
    → All LinkMatches h.shares
    → All LinkMatches (set_share_status h k status now).shares
unfolding set_share_status update_share_in_history patch_share share_status_patch
set_share_status-LinkMatches h k status now v =
    All-map LinkMatches LinkMatches _ h.shares (λ s p. ground arith) v

remove_share-LinkMatches :
    (h : WormholeHistory) (k : String)
    → All LinkMatches h.shares
    → All LinkMatches (remove_share h k).shares
unfolding remove_share remove_share_from_history
remove_share-LinkMatches h k v = All-filter LinkMatches _ h.shares v

-- What the user does to the shares: any sequence of additions, changes of a status and removals.
pub data Edits (h : WormholeHistory) : WormholeHistory → Type 0 where
  unedited : Edits h h
  share_added :
      {k : WormholeHistory} (path join_code : String) (port : ℕ) (name id : Option String)
      (expiration : Option ExpirationOption) (expires_at : Option ℕ) (fresh : String)
      (created_at last_active_at : ℕ)
      → Edits h k
      → Edits h
          (add_share k (
            new_share path join_code port name id expiration expires_at fresh created_at
              last_active_at)).0
  status_set :
      {k : WormholeHistory} (id : String) (status : ShareStatus) (now : ℕ)
      → Edits h k
      → Edits h (set_share_status k id status now)
  share_removed : {k : WormholeHistory} (id : String) → Edits h k → Edits h (remove_share k id)

-- If every share's link is that of its join code, so it is after any sequence of `addShare`,
-- `setShareStatus` and `removeShare`.
Edits-LinkMatches :
    {h k : WormholeHistory} → Edits h k → All LinkMatches h.shares → All LinkMatches k.shares
Edits-LinkMatches unedited v = v
Edits-LinkMatches (share_added {k} path code port name id expiration expires_at fresh c l r) v =
    add_share-LinkMatches k path code port name id expiration expires_at fresh c l
      (Edits-LinkMatches r v)
Edits-LinkMatches (status_set {k} id status now r) v =
    set_share_status-LinkMatches k id status now (Edits-LinkMatches r v)
Edits-LinkMatches (share_removed {k} id r) v = remove_share-LinkMatches k id (Edits-LinkMatches r v)

-- A sync takes the host's join code over and keeps the old link: a share whose link was that of its
-- join code has a link of another code afterwards whenever the host of its path has another code.
pub sync_share_stale_link :
    (hosts : List HostInfo) (now : ℕ) (s : ShareHistoryItem) (host : HostInfo)
    → LinkMatches s
    → find (has_key (λ h. h.share_path) s.path) hosts ≡ some host
    → host.join_code ≢ s.join_code
    → ¬ LinkMatches (sync_share hosts now s)
unfolding sync_share
sync_share_stale_link hosts now s host m e ne =
    rw (e, sync_share) (λ w. ne (make_share_link_injective host.join_code s.join_code (sym w ∙ m)))
