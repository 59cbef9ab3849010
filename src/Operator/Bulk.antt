-- ===== src/Operator/Bulk.antt =====
-- `operate_bulk` of app/infrastructure/rabbitmq/message_operator.py. A set of fingerprints is a list
-- without repetitions.
use queuelens.Prelude.{
  ℕ, String, Bool, true, false, not, Option, none, some, List, [], ◌∷◌, map, if◌then◌else◌, put,
  sorted, string_eq,
}
use queuelens.Value.{text}
use queuelens.Failure.{Failure, Result, ok, raise, amqp, delivery_error, value_error}
use queuelens.Domain.Fingerprint.{Hashing}
use queuelens.Broker.{Broker, World, Delivery}
use queuelens.Broker.Exec.{
  Exec, pure, raising, on_error, ◌>>=◌, ◌>>◌, ack, nack, declare_queue, with_channel,
}
use queuelens.Browser.{Stop, Fetched, fetch, to_record}
use queuelens.Operator.{
  Action, copy, unsupported, publishes_copy, is_park, Order, Report, report, success, not_found,
  skipped_duplicate, not_attempted, failed, halted, matching, ensure_target, publish_copy,
  requeue_unprocessed,
}

-- How a round of the loop ends when nothing escapes it: `continue`, or `break` after the report.
pub data Round : Type 0 where
  next : Report → Round
  halt : Report → Round

-- `action in {"copy", "move", "park", "delete"}`
abbrev pub supported : Action → Bool
supported unsupported = false
supported _ = true

-- `except DeliveryError`
abbrev pub is_delivery_error : Failure → Bool
is_delivery_error (amqp (delivery_error t)) = true
is_delivery_error _ = false

module _ (b : Broker) where
  -- The two `except` clauses of the loop's body.
  abbrev pub caught : Action → String → Bool → Delivery → Failure → Exec b Round
  caught action fp published m e w =
      if is_delivery_error e
      then ◌>>◌ b (nack b m) (pure b (next (report fp (failed e)))) w
      else pure b (halt (halted fp e published action)) w

  abbrev pub attempt :
      Action
      → String
      → Bool
      → Delivery
      → (Unit {0} → Exec b Round)
      → Result (Unit {0}) × World b
      → Result Round × World b
  attempt action fp published m go (ok u, w) = go u w
  attempt action fp published m go (raise e, w) = caught action fp published m e w

  -- `if action == "copy": nack else: ack`
  abbrev pub settle_bulk : Action → Delivery → Exec b (Unit {0})
  settle_bulk copy m = nack b m
  settle_bulk _ m = ack b m

module _ (h : Hashing) (b : Broker) where
  -- The publish of the loop's body, with the original fingerprint in the headers.
  abbrev pub publish_bulk : Order b → Delivery → Exec b (Unit {0})
  publish_bulk o m with_target = elim o.target [
    | none ↦ (raise value_error, with_target)
    | some t ↦
        publish_copy b (to_record h o.source_queue m) t
          (put o.replay_headers "x-queuelens-original-fingerprint"
            (text (to_record h o.source_queue m).fingerprint))
          (not (is_park o.action)) with_target
  ]

  abbrev pub settle_round : Order b → String → Bool → Delivery → Exec b Round
  settle_round o fp published m w =
      attempt b o.action fp published m (λ u. pure b (next (report fp success)))
        (settle_bulk b o.action m w)

  -- The loop's body for the one message of its group.
  unfoldable pub act_on : Order b → String → Delivery → Exec b Round
  unfolding publish_copy put
  act_on o fp m w =
      if publishes_copy o.action
      then attempt b o.action fp false m (λ u. settle_round o fp true m) (publish_bulk o m w)
      else settle_round o fp false m w

  -- The loop's body for a group.
  unfoldable pub act_on_group : Order b → String → List Delivery → Exec b Round
  unfolding act_on
  act_on_group o fp [] = pure b (next (report fp not_found))
  act_on_group o fp (m ∷ []) = act_on o fp m
  act_on_group o fp (m ∷ n ∷ rest) = pure b (next (report fp skipped_duplicate))

  -- How the rest of the results follows a round.
  abbrev pub follow : List String → Exec b (List Report) → Round → Exec b (List Report)
  follow later others (next r) = ◌>>=◌ b others (λ rs. pure b (r ∷ rs))
  follow later others (halt r) = pure b (r ∷ map (λ fp. report fp not_attempted) later)

  -- `for position, fingerprint in enumerate(ordered)`
  unfoldable pub bulk_loop : Order b → List Delivery → List String → Exec b (List Report)
  unfolding act_on_group matching
  bulk_loop o held [] = pure b []
  bulk_loop o held (fp ∷ later) =
      ◌>>=◌ b (act_on_group o fp (matching h o.source_queue fp held))
        (follow later (bulk_loop o held later))

  abbrev pub verify_target : Order b → Exec b (Unit {0})
  verify_target o w =
      if publishes_copy o.action
      then (elim o.target [
        | none ↦ (raise value_error, w)
        | some t ↦ ensure_target b t (is_park o.action) w
      ])
      else (ok tt, w)

  abbrev pub bulk_fetched :
      Order b → List String → List Delivery → Result (ℕ × Option Stop) → Exec b (List Report)
  bulk_fetched o fingerprints held (raise e) = raising b e
  bulk_fetched o fingerprints held (ok r) = ◌>>◌ b (verify_target o) (
      ◌>>=◌ b (bulk_loop o held (sorted fingerprints))
        (λ results. ◌>>◌ b (requeue_unprocessed b held) (pure b results)))

  abbrev pub bulk_scanned : Order b → List String → Fetched b → Result (List Report) × World b
  bulk_scanned o fingerprints f =
      on_error b (requeue_unprocessed b f.held)
        (bulk_fetched o fingerprints f.held f.outcome f.world)

  abbrev pub bulk_declared :
      Order b → List String → Result ℕ × World b → Result (List Report) × World b
  bulk_declared o fingerprints (raise e, w) = on_error b (requeue_unprocessed b []) (raise e, w)
  bulk_declared o fingerprints (ok ready, w) =
      bulk_scanned o fingerprints (fetch b o.whole o.source_queue o.max_scan none ready w)

  abbrev pub in_channel : Order b → List String → Exec b (List Report)
  in_channel o fingerprints =
      with_channel b (λ w. bulk_declared o fingerprints (declare_queue b o.source_queue true w))

  -- `MessageOperator.operate_bulk`, under the queue's lock.
  unfoldable pub operate_bulk : Order b → List String → Exec b (List Report)
  unfolding bulk_loop requeue_unprocessed with_channel
  operate_bulk o fingerprints w =
      if supported o.action then in_channel o fingerprints w else (raise value_error, w)
