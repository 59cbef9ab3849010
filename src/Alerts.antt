-- ===== src/Alerts.antt =====
-- app/application/alert_engine.py: rules on queues that fire, hold and recover, with the rules' table of
-- AlertRuleRepository (app/infrastructure/persistence/store.py). Numbers (counts, rates, thresholds)
-- are integers in a fixed unit; a time is a number of seconds. The rows that a pass reads may be older
-- than the table, which other replicas write.
mod Glob
pub mod Switches
pub mod Alternation
pub mod Holding
pub mod Deliveries
use Glob.{fnmatch}
use queuelens.Prelude.{
  ℕ, ◌+◌, ◌-◌, String, Bool, true, false, not, ◌&&◌, ◌||◌, Option, none, some, List, [], ◌∷◌, ◌++◌,
  map, ◌==◌, if◌then◌else◌, nat_eq, string_eq, option_eq, ltb, leb, filter, Dict, get, put, remove,
  Equality,
}
use queuelens.Prelude.Int.{ℤ, pos, ltb_ℤ}
use queuelens.Failure.{Result, ok, raise}

-- `condition_holds`
unfoldable pub condition_holds : ℤ → String → ℤ → Bool
condition_holds value operator threshold =
    if operator == ">"
    then ltb_ℤ threshold value
    else if operator == ">=" || operator == "≥"
    then not (ltb_ℤ value threshold)
    else if operator == "=" || operator == "=="
    then not (ltb_ℤ value threshold) && not (ltb_ℤ threshold value)
    else if operator == "<"
    then ltb_ℤ value threshold
    else false

-- What an evaluation reads of a queue.
pub record QueueStats : Type 0 where
  pub name : String
  pub messages_ready : ℤ
  pub messages : ℤ
  pub consumers : ℤ
  pub publish_rate : Option ℤ

pub record Rule : Type 0 where
  pub id : ℕ
  pub name : String
  pub pattern : String
  pub environment : Option String
  pub vhost : Option String
  pub metric : String
  pub operator : String
  pub threshold : ℤ
  pub duration_seconds : ℕ
  pub severity : String
  pub channels : List String
  pub enabled : Bool
  pub fired : Bool
  pub last_fired_at : Option ℕ

abbrev pub Rules : Type 0
Rules = Dict ℕ Rule

abbrev pub or_keep : Option ℕ → Option ℕ → Option ℕ
or_keep none old = old
or_keep (some t) old = some t

-- `set_fired`: compare-and-set, true for the caller that changed the row.
abbrev pub cas : ℕ → Bool → Option ℕ → Rules → Option Rule → Bool × Rules
cas id fired at rules none = (false, rules)
cas id fired at rules (some row) =
    if (if row.fired then fired else not fired) then (false, rules) else (
      true,
      put rules id (record row { fired = fired; last_fired_at = or_keep at row.last_fired_at }),
    )

unfoldable pub set_fired : ℕ → Bool → Option ℕ → Rules → Bool × Rules
set_fired id fired at rules = cas id fired at rules (get rules id)

-- `mark_fired`
abbrev pub mark_fired : ℕ → ℕ → Rules → Bool × Rules
mark_fired id at rules = set_fired id true (some at) rules

-- `self._pending`: since when a rule's condition has been seen to hold.
abbrev pub Pending : Type 0
Pending = Dict ℕ ℕ

abbrev value_or_zero : Option ℤ → ℤ
value_or_zero none = pos 0
value_or_zero (some v) = v

-- The value of a rule's metric, 0 for an unknown one.
unfoldable pub value_of : String → QueueStats → ℤ
value_of metric q =
    if metric == "messages_ready"
    then q.messages_ready
    else if metric == "messages"
    then q.messages
    else if metric == "consumers"
    then q.consumers
    else if metric == "publish_rate"
    then value_or_zero q.publish_rate
    else pos 0

-- The matched queues whose value meets the rule's condition.
unfoldable pub offenders : Rule → List QueueStats → List QueueStats
unfolding fnmatch condition_holds value_of
offenders rule queues =
    filter (λ q. condition_holds (value_of rule.metric q) rule.operator rule.threshold)
      (filter (λ q. fnmatch q.name rule.pattern) queues)

-- An edge of a rule: the notification that is sent and stored, with its rule, and the firing whose
-- incident it opens or closes.
pub data Edge : Type 0 where
  rule_fired : ℕ → ℕ → Edge
  recovered : ℕ → Option ℕ → Edge

-- `setdefault`
abbrev pub first_seen : ℕ → Option ℕ → ℕ
first_seen now none = now
first_seen now (some t) = t

abbrev pub edge_if : Edge → Bool × Rules → Option Edge × Rules
edge_if e (true, rules) = (some e, rules)
edge_if e (false, rules) = (none, rules)

-- `_evaluate` on a rule with offenders.
unfoldable pub evaluate_held : Rule → ℕ → Pending → Rules → Option Edge × Rules × Pending
evaluate_held rule now pending rules =
    let first = first_seen now (get pending rule.id) in
    let (edge, after) =
      if leb (first + rule.duration_seconds) now && not rule.fired
      then edge_if (rule_fired rule.id now) (mark_fired rule.id now rules)
      else (none, rules) in
    (edge, after, put pending rule.id first)

-- `_evaluate` on a rule without.
unfoldable pub evaluate_clear : Rule → Pending → Rules → Option Edge × Rules × Pending
evaluate_clear rule pending rules =
    let (edge, after) =
      if rule.fired
      then edge_if (recovered rule.id rule.last_fired_at) (set_fired rule.id false none rules)
      else (none, rules) in
    (edge, after, remove pending rule.id)

abbrev pub evaluate_on :
    Rule → ℕ → Pending → Rules → List QueueStats → Option Edge × Rules × Pending
evaluate_on rule now pending rules [] = evaluate_clear rule pending rules
evaluate_on rule now pending rules (q ∷ qs) = evaluate_held rule now pending rules

-- `_evaluate`
unfoldable pub evaluate :
    Rule → List QueueStats → ℕ → Pending → Rules → Option Edge × Rules × Pending
evaluate rule queues now pending rules = evaluate_on rule now pending rules (offenders rule queues)

-- The rules that a pass evaluates, by the scope that they watch.
abbrev pub ScopeKey : Type 0
ScopeKey = Option String × Option String

abbrev pub same_key : ScopeKey → ScopeKey → Bool
same_key j k = j.0 == k.0 && j.1 == k.1

abbrev pub watches : Rule → ScopeKey
watches rule = (rule.environment, rule.vhost)

-- `by_scope.setdefault(…, []).append(rule)`
unfoldable pub add_rule : Rule → List (ScopeKey × List Rule) → List (ScopeKey × List Rule)
add_rule rule [] = (watches rule, rule ∷ []) ∷ []
add_rule rule ((k, rules) ∷ groups) =
    let later = add_rule rule groups in
    if same_key k (watches rule) then (k, rules ++ rule ∷ []) ∷ groups else (k, rules) ∷ later

unfoldable pub group : List (ScopeKey × List Rule) → List Rule → List (ScopeKey × List Rule)
unfolding add_rule
group groups [] = groups
group groups (rule ∷ rules) = group (add_rule rule groups) rules

abbrev pub with_edge : Option Edge → List Edge → List Edge
with_edge none edges = edges
with_edge (some e) edges = e ∷ edges

-- A scope's rules, one after the other.
unfoldable pub evaluate_rules :
    List Rule → List QueueStats → ℕ → Pending → Rules → List Edge × Rules × Pending
unfolding evaluate
evaluate_rules [] queues now pending table = ([], table, pending)
evaluate_rules (rule ∷ rules) queues now pending table =
    let (edge, table', pending') = evaluate rule queues now pending table in
    let (edges, last, kept) = evaluate_rules rules queues now pending' table' in
    (with_edge edge edges, last, kept)

-- A scope whose queues cannot be read is passed over.
abbrev evaluate_scope :
    List Rule → Result (List QueueStats) → ℕ → Pending → Rules → List Edge × Rules × Pending
evaluate_scope rules (raise e) now pending table = ([], table, pending)
evaluate_scope rules (ok queues) now pending table = evaluate_rules rules queues now pending table

unfoldable pub evaluate_groups :
    List (ScopeKey × List Rule)
    → (ScopeKey → Result (List QueueStats))
    → ℕ
    → Pending
    → Rules
    → List Edge × Rules × Pending
unfolding evaluate_rules
evaluate_groups [] queues_of now pending table = ([], table, pending)
evaluate_groups ((k, rules) ∷ groups) queues_of now pending table =
    let (edges, table', pending') = evaluate_scope rules (queues_of k) now pending table in
    let (more, last, kept) = evaluate_groups groups queues_of now pending' table' in
    (edges ++ more, last, kept)

abbrev evaluate_enabled :
    List Rule
    → (ScopeKey → Result (List QueueStats))
    → ℕ
    → Pending
    → Rules
    → List Edge × Rules × Pending
evaluate_enabled [] queues_of now pending table = ([], table, [])
evaluate_enabled (r ∷ rs) queues_of now pending table =
    evaluate_groups (group [] (r ∷ rs)) queues_of now pending table

-- `evaluate_once`, on the rules as the pass has read them: its edges, the table and the clocks.
unfoldable pub evaluate_once :
    List Rule
    → (ScopeKey → Result (List QueueStats))
    → ℕ
    → Pending
    → Rules
    → List Edge × Rules × Pending
unfolding evaluate_groups group
evaluate_once read queues_of now pending table =
    evaluate_enabled (filter (λ r. r.enabled) read) queues_of now pending table
