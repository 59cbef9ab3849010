-- ===== src/Bulk/Batching.antt =====
-- What a dry run of app/application/bulk_service.py approves, and where its batch is kept.
use Prim.Native.String.{◌++◌ as joined}
use queuelens.Prelude.{
  ℕ, zero, suc, ◌+◌, String, Bool, not, ◌&&◌, Option, none, some, List, [], ◌∷◌, map, ◌==◌,
  if◌then◌else◌, nat_eq, string_eq, ltb, is_some, or_else, length, take, filter, contains, count,
  sorted, Dict, get, remove,
}
use queuelens.Failure.{Result, ok, raise, value_error}
use queuelens.Domain.{MessageRecord, ReplayTarget, queue_target}
use queuelens.Operator.{Action, park, delete}
use queuelens.Queues.Listing.{occurs}
use queuelens.Snapshots.{Scope}

-- The settings that the service reads; the targets are those of `replay_targets_json`, parsed.
pub record Settings : Type 0 where
  pub replay_targets : Dict String (Dict String String)
  pub max_bulk_size : ℕ
  pub bulk_dry_run_ttl : ℕ

abbrev target_of : Dict String String → Option ReplayTarget
target_of [] = none
target_of (entry ∷ rest) = some (record {
  type = or_else (get (entry ∷ rest) "type") "";
  queue = get (entry ∷ rest) "queue";
  exchange = get (entry ∷ rest) "exchange";
  routing_key = get (entry ∷ rest) "routing_key";
})

-- `configured_target` of app/application/action_service.py: an empty entry is none.
unfoldable pub configured_target : Settings → String → Option ReplayTarget
unfolding get
configured_target s source_queue = elim (get s.replay_targets source_queue) [
  | none ↦ none
  | some raw ↦ target_of raw
]

pub record Batch : Type 0 where
  pub id : String
  pub source_queue : String
  pub action : String
  pub operator_action : Action
  pub target : Option ReplayTarget
  pub fingerprints : List String
  pub message_count : ℕ
  pub duplicate_fingerprints : ℕ
  pub sample_fingerprints : List String
  pub expires_at : ℕ
  pub scan_limit : ℕ
  pub scope : Scope

abbrev pub Batches : Type 0
Batches = Dict String Batch

-- The arguments of `dry_run`.
pub record Request : Type 0 where
  pub source_queue : String
  pub action : String
  pub mode : Action
  pub target : Option ReplayTarget
  pub payload_contains : List ℕ
  pub selected_fingerprints : Option (List String)
  pub max_bulk : Option ℕ
  pub scan_limit : Option ℕ
  pub depth : Option ℕ

-- What the operator is asked to do, and where copies go.
abbrev replay_to :
    Action → Option ReplayTarget → Option ReplayTarget → Result (Action × Option ReplayTarget)
replay_to asked (some t) configured = ok (asked, some t)
replay_to asked none (some t) = ok (asked, some t)
replay_to asked none none = raise value_error

unfoldable pub resolve : Settings → Request → Result (Action × Option ReplayTarget)
unfolding configured_target
resolve s r =
    if r.action == "replay"
    then replay_to r.mode r.target (configured_target s r.source_queue)
    else if r.action == "park"
    then ok (park, some (queue_target (some (joined r.source_queue ".parking"))))
    else if r.action == "delete"
    then ok (delete, none)
    else raise value_error

-- `n or d`
abbrev pub nonzero_or : Option ℕ → ℕ → ℕ
nonzero_or none d = d
nonzero_or (some zero) d = d
nonzero_or (some (suc n)) d = suc n

abbrev pub window : Settings → Request → ℕ
window s r = nonzero_or r.max_bulk s.max_bulk_size

abbrev pub scan_limit : Settings → Request → Bool → ℕ
scan_limit s r whole =
    if whole
    then nonzero_or r.depth (nonzero_or r.scan_limit (window s r))
    else nonzero_or r.scan_limit (window s r)

-- The scanned records that the dry run approves.
abbrev pub in_window : Settings → Request → Bool → List MessageRecord → List MessageRecord
in_window s r whole records =
    if whole && not (is_some r.selected_fingerprints) then take (window s r) records else records

abbrev pub has_payload : List ℕ → List MessageRecord → List MessageRecord
has_payload [] records = records
has_payload (c ∷ cs) records = filter (λ m. occurs (c ∷ cs) m.body) records

abbrev pub selected : Option (List String) → List MessageRecord → List MessageRecord
selected none records = records
selected (some fps) records = filter (λ m. contains fps m.fingerprint) records

unfoldable pub approved : Settings → Request → Bool → List MessageRecord → List MessageRecord
unfolding occurs
approved s r whole records =
    selected r.selected_fingerprints (has_payload r.payload_contains (in_window s r whole records))

abbrev pub fingerprints_of : List MessageRecord → List String
fingerprints_of = map (λ m. m.fingerprint)

-- `frozenset`
unfoldable pub unique : List String → List String
unique [] = []
unique (fp ∷ rest) = let others = unique rest in if contains others fp then others else fp ∷ others

unfoldable pub batch_of :
    Settings
    → Scope
    → Request
    → Action × Option ReplayTarget
    → String
    → ℕ
    → Bool
    → List MessageRecord
    → Batch
unfolding approved unique sorted
batch_of s scope r what token now whole records =
    let fps = fingerprints_of (approved s r whole records) in
    record {
      id = token;
      source_queue = r.source_queue;
      action = r.action;
      operator_action = what.0;
      target = what.1;
      fingerprints = unique fps;
      message_count = length (approved s r whole records);
      duplicate_fingerprints = length (filter (λ fp. ltb 1 (count fps fp)) (unique fps));
      sample_fingerprints = take 10 (sorted (unique fps));
      expires_at = now + s.bulk_dry_run_ttl;
      scan_limit = scan_limit s r whole;
      scope = scope;
    }

-- `_prune_expired`
abbrev pub prune_expired : ℕ → Batches → Batches
prune_expired now batches = filter (λ e. not (ltb e.1.expires_at now)) batches

-- `_take_batch`: one-shot.
unfoldable pub take_batch : ℕ → String → Batches → Option Batch × Batches
unfolding get remove
take_batch now id batches =
    (get (prune_expired now batches) id, remove (prune_expired now batches) id)
