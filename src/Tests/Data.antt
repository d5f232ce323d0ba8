-- ===== src/Tests/Data.antt =====
-- Small shares, connections, hosts and a browser storage for the tests.
use wormhole.Storage.{LocalStorage, Json}
use wormhole.History.{
  ShareHistoryItem, ConnectionHistoryItem, WormholeHistory, paused, inactive, connected, forever,
}
use wormhole.HistoryHook.{HostInfo}
use mathlib.Core.Option.{some-injective}
use mathlib.Core.Path.{subst}
use wormhole.Common.{
  String, ◌≡◌, refl, ◌≢◌, inl, inr, false, Option, none, some, [], ◌∷◌, ◌==◌, eq_iff, eq_refl,
  if◌then◌else◌, Bool-cases, arith,
}

abbrev pub docs : ShareHistoryItem
docs = record {
  id = "s1";
  name = "docs";
  path = "/home/ann/docs";
  join_code = "ABC-123";
  share_link = "https://wormhole.byronwade.com/j/ABC-123";
  port = 4433;
  status = inactive;
  created_at = 10;
  last_active_at = 20;
  expiration_option = forever;
  expires_at = none;
}

abbrev pub music : ShareHistoryItem
music = record docs { id = "s2"; name = "music"; path = "/home/ann/music"; status = paused }

abbrev pub remote : ConnectionHistoryItem
remote = record {
  id = "c1";
  name = "XYZ-789 : remote";
  join_code = "XYZ-789";
  mount_point = "/mnt/remote";
  remote_host = none;
  status = connected;
  created_at = 5;
  last_connected_at = 6;
  error_message = some "late";
}

abbrev pub sample : WormholeHistory
sample = record { shares = docs ∷ music ∷ []; connections = remote ∷ []; version = 1 }

abbrev pub host : HostInfo
host = record { id = "s1"; share_path = "/home/ann/docs"; port = 5000; join_code = "NEW-456" }

-- A storage that takes every text.
unfoldable pub put {ℓ} : {A : Type ℓ} → (String → Option A) → String → A → String → Option A
put s k v j = if k == j then some v else s j

pub put_self :
    {Text : Type 0} (s t : String → Option Text) (k : String) (v : Text)
    → some (put s k v) ≡ some t
    → t k ≡ some v
unfolding put
put_self {Text} s t k v e =
    subst (λ (u : String → Option Text). u k ≡ some v) (some-injective _ _ e) (rw (eq_refl k) refl)

pub put_ne :
    {Text : Type 0} (s t : String → Option Text) (k j : String) (v : Text)
    → some (put s k v) ≡ some t
    → k ≢ j
    → t j ≡ s j
unfolding put
put_ne {Text} s t k j v e ne = elim (Bool-cases (k == j)) [
  | inl same ↦ absurd (ne ((eq_iff k j).0 same))
  | inr other ↦
      subst (λ (u : String → Option Text). u j ≡ s j) (some-injective _ _ e) (rw other refl)
]

abbrev pub memory : (Text : Type 0) → LocalStorage Text
memory Text = record {
  Store = String → Option Text;
  get_item = λ s k. s k;
  set_item = λ s k v. some (put s k v);
  get_item-set_item = put_self;
  get_item-set_item_ne = put_ne;
}

-- A text is the value itself.
abbrev pub plain : (A : Type 0) → Json A A
plain A = record {
  stringify = λ a. a;
  parse = some;
  is_empty = λ a. false;
  parse-stringify = λ a. refl;
  is_empty-stringify = λ a. refl;
}

abbrev pub nothing_stored : {Text : Type 0} → String → Option Text
nothing_stored k = none

-- Two texts that differ.
pub ne_of_test : (s t : String) → (s == t) ≡ false → s ≢ t
ne_of_test s t h = ground (arith, eq_iff s t)
