-- ===== src/Snapshots.antt =====
-- app/application/snapshots.py: the copies of scanned queues that pages are served from. The store is
-- an ordered dict, least recently used first. Clock and token (`secrets.token_urlsafe`) are arguments;
-- a time is a number of microseconds.
pub mod Store
pub mod Entries
pub mod Answers
use queuelens.Prelude.{
  ℕ, suc, ◌+◌, ◌*◌, String, Bool, ◌&&◌, Option, none, some, List, [], ◌∷◌, ◌==◌, if◌then◌else◌,
  string_eq, ltb, length, filter, Dict, get as dict_get, put, remove,
}
use queuelens.Prelude.{◌++◌}
use queuelens.Domain.{MessageRecord}
use queuelens.Browser.{Stop}

-- `SNAPSHOT_TTL`
abbrev pub snapshot_ttl : ℕ
snapshot_ttl = 5 * 60 * 1000000

-- `MAX_SNAPSHOTS`
abbrev pub max_snapshots : ℕ
max_snapshots = 4

pub record Scope : Type 0 where
  pub environment : String
  pub vhost : String

abbrev pub same_scope : Scope → Scope → Bool
same_scope s t = s.environment == t.environment && s.vhost == t.vhost

pub record Snapshot : Type 0 where
  pub id : String
  pub scope : Scope
  pub queue : String
  pub records : List MessageRecord
  pub ready : ℕ
  pub stopped : Option Stop
  pub depth : ℕ
  pub created_at : ℕ

-- `__post_init__`: the position of each fingerprint's deepest copy.
unfoldable pub positions_from : ℕ → List MessageRecord → Dict String ℕ → Dict String ℕ
positions_from n [] d = d
positions_from n (r ∷ rest) d = positions_from (suc n) rest (put d r.fingerprint n)

unfoldable pub positions : Snapshot → Dict String ℕ
unfolding positions_from
positions s = positions_from 0 s.records []

abbrev pub expires_at : Snapshot → ℕ
expires_at s = s.created_at + snapshot_ttl

abbrev pub Store : Type 0
Store = Dict String Snapshot

-- `_prune`
abbrev pub prune : ℕ → Store → Store
prune now store = filter (λ e. ltb now (expires_at e.1)) store

-- `while len(self._snapshots) > MAX_SNAPSHOTS: popitem(last=False)`
unfoldable pub evict : Store → Store
evict [] = []
evict (e ∷ rest) =
    let later = evict rest in if ltb max_snapshots (length (e ∷ rest)) then later else e ∷ rest

-- `SnapshotStore.add`, of a snapshot that the constructor has made.
unfoldable pub add : ℕ → Snapshot → Store → Store
unfolding evict put
add now s store = evict (put (prune now store) s.id s)

abbrev pub admits : Scope → String → Snapshot → Bool
admits scope queue s = same_scope s.scope scope && s.queue == queue

-- `move_to_end`
abbrev pub move_to_end : String → Snapshot → Store → Store
move_to_end id s store = remove store id ++ (id, s) ∷ []

abbrev answer : String → Scope → String → Store → Option Snapshot → Option Snapshot × Store
answer id scope queue store none = (none, store)
answer id scope queue store (some s) =
    if admits scope queue s then (some s, move_to_end id s store) else (none, store)

-- `SnapshotStore.get`
unfoldable pub get : ℕ → String → Scope → String → Store → Option Snapshot × Store
unfolding dict_get remove
get now id scope queue store =
    answer id scope queue (prune now store) (dict_get (prune now store) id)
