-- ===== src/Actions.antt =====
-- app/application/action_service.py: single replays, parks and deletions. What the guard answers and
-- the time, as text, are arguments.
pub mod Provenance
use Prim.Native.String.{◌++◌ as joined}
use queuelens.Prelude.{
  ℕ, String, Bool, true, false, Option, none, some, List, [], ◌∷◌, if◌then◌else◌, string_eq,
  or_else, Dict, put, merge,
}
use queuelens.Value.{Value, text, bool}
use queuelens.Failure.{Result, ok, raise, value_error}
use queuelens.Domain.{ReplayTarget, queue_target}
use queuelens.Domain.Fingerprint.{Hashing}
use queuelens.Broker.{Broker, World}
use queuelens.Operator.{Action, copy, move, park, delete, unsupported, Order, Operated, operate}
use queuelens.Bulk.{Settings, configured_target, nonzero_or}

-- `replay_{action}`; an unsupported action publishes nothing.
abbrev pub replay_name : Action → String
replay_name copy = "replay_copy"
replay_name move = "replay_move"
replay_name park = "replay_park"
replay_name delete = "replay_delete"
replay_name unsupported = "replay_"

abbrev pub replayed_headers : Action → String → String → String → Dict String Value
replayed_headers action source_queue username now =
    ("x-queuelens-replayed", bool true)
    ∷ ("x-queuelens-action", text (replay_name action))
    ∷ ("x-queuelens-replayed-at", text now)
    ∷ ("x-queuelens-replayed-by", text username)
    ∷ ("x-queuelens-source-queue", text source_queue)
    ∷ []

-- `provenance_headers`
abbrev pub provenance_headers : Action → String → String → String → Dict String Value
provenance_headers park source_queue username now =
    ("x-queuelens-action", text "park")
    ∷ ("x-queuelens-parked-at", text now)
    ∷ ("x-queuelens-parked-by", text username)
    ∷ ("x-queuelens-source-queue", text source_queue)
    ∷ []
provenance_headers action source_queue username now =
    replayed_headers action source_queue username now

-- The headers that `replay` and `park` add, over those that the caller gives.
unfoldable pub annotated :
    Dict String Value → Action → String → String → String → String → Dict String Value
unfolding merge put
annotated extra action source_queue username now fingerprint =
    put (merge extra (provenance_headers action source_queue username now))
      "x-queuelens-original-fingerprint" (text fingerprint)

-- The settings that the service reads.
pub record ActionSettings : Type 0 where
  pub shared : Settings
  pub refetch_window_size : ℕ

-- What the API passes to an action.
pub record Request : Type 0 where
  pub source_queue : String
  pub fingerprint : String
  pub username : String
  pub extra_headers : Dict String Value
  pub max_scan : Option ℕ
  pub depth : Option ℕ

-- `_scan`, behind the guard: how far the action scans.
abbrev pub scan_depth : ActionSettings → Request → Bool → ℕ
scan_depth s r whole =
    if whole
    then nonzero_or r.depth (nonzero_or r.max_scan s.refetch_window_size)
    else nonzero_or r.max_scan s.refetch_window_size

module _ (h : Hashing) (b : Broker) (s : ActionSettings) where
  abbrev pub order : Request → Action → Option ReplayTarget → Dict String Value → Bool → Order b
  order r action target headers whole = record {
    source_queue = r.source_queue;
    action = action;
    target = target;
    replay_headers = headers;
    max_scan = scan_depth s r whole;
    whole = whole;
  }

  -- The result with `headers_added`.
  abbrev pub with_headers :
      Dict String Value
      → Result (Operated b) × World b
      → Result (Operated b × Dict String Value) × World b
  with_headers headers (raise e, w) = (raise e, w)
  with_headers headers (ok done, w) = (ok (done, headers), w)

  -- The guard is asked before the operator is called.
  abbrev pub guarded :
      Request
      → Action
      → Option ReplayTarget
      → Dict String Value
      → Bool
      → Result Bool
      → World b
      → Result (Operated b) × World b
  guarded r action target headers stamp_deaths (raise e) w = (raise e, w)
  guarded r action target headers stamp_deaths (ok whole) w =
      operate h b (order r action target headers whole) r.fingerprint stamp_deaths w

  abbrev pub replay_headers : Request → Action → Bool → String → Dict String Value
  replay_headers r asked annotate now =
      if annotate
      then annotated r.extra_headers asked r.source_queue r.username now r.fingerprint
      else r.extra_headers

  abbrev pub replay_to :
      Request
      → Action
      → Option ReplayTarget
      → Bool
      → String
      → Result Bool
      → World b
      → Result (Operated b × Dict String Value) × World b
  replay_to r asked none annotate now guard w = (raise value_error, w)
  replay_to r asked (some target) annotate now guard w =
      with_headers (replay_headers r asked annotate now)
        (guarded r asked (some target) (replay_headers r asked annotate now) annotate guard w)

  abbrev pub given_or : Option ReplayTarget → Option ReplayTarget → Option ReplayTarget
  given_or (some t) configured = some t
  given_or none configured = configured

  -- `replay`
  unfoldable pub replay :
      Request
      → Action
      → Option ReplayTarget
      → Bool
      → String
      → Result Bool
      → World b
      → Result (Operated b × Dict String Value) × World b
  unfolding operate configured_target annotated
  replay r asked target annotate now guard w =
      replay_to r asked (given_or target (configured_target s.shared r.source_queue)) annotate now
        guard w

  -- `park`, of the action service
  unfoldable pub park_message :
      Request → String → Result Bool → World b → Result (Operated b × Dict String Value) × World b
  unfolding operate annotated
  park_message r now guard w =
      let headers = annotated r.extra_headers park r.source_queue r.username now r.fingerprint in
      let target = queue_target (some (joined r.source_queue ".parking")) in
      with_headers headers (guarded r park (some target) headers true guard w)

  -- `delete`, of the action service
  unfoldable pub delete_message : Request → Result Bool → World b → Result (Operated b) × World b
  unfolding operate
  delete_message r guard w = guarded r delete none [] true guard w
