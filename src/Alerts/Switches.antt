-- ===== src/Alerts/Switches.antt =====
-- One evaluation of a rule changes the rules' table in one compare-and-set at most
-- (app/application/alert_engine.py).
use queuelens.Prelude.{
  ℕ, ◌+◌, ◌≡◌, refl, inl, inr, Bool, true, false, not, ◌&&◌, Option, none, some, List, [], ◌∷◌,
  ◌==◌, if◌then◌else◌, nat_eq, leb, get, put, arith, Bool-cases,
}
use queuelens.Alerts.{
  Rule, Rules, Pending, QueueStats, Edge, rule_fired, recovered, or_keep, cas, set_fired, edge_if,
  first_seen, evaluate_held, evaluate_clear, evaluate_on, evaluate, offenders,
}

-- What an edge makes of a rule: fired, recovered, or nothing for any other rule.
abbrev pub edge_on : ℕ → Edge → Option Bool
edge_on id (rule_fired j at) = if j == id then some true else none
edge_on id (recovered j at) = if j == id then some false else none

-- An edge together with the compare-and-set that won it.
pub record Switch (id : ℕ) (before : Rules) (e : Edge) (after : Rules) : Type 0 where
  pub fired : Bool
  pub about : (j : ℕ) → edge_on j e ≡ (if id == j then some fired else none)
  pub row : Rule
  pub there : get before id ≡ some row
  pub was : row.fired ≡ not fired
  pub new : Rule
  pub now_is : new.fired ≡ fired
  pub made : after ≡ put before id new

-- An evaluation without an edge leaves the table, one with an edge switches its rule.
abbrev pub Moved : ℕ → Rules → Option Edge → Rules → Type 0
Moved id before none after = after ≡ before
Moved id before (some e) after = Switch id before e after

cas-Moved :
    (id : ℕ) (fired : Bool) (at : Option ℕ) (rules : Rules) (e : Edge) (found : Option Rule)
    → ((j : ℕ) → edge_on j e ≡ (if id == j then some fired else none))
    → get rules id ≡ found
    → Moved id rules
        (edge_if e (cas id fired at rules found)).0
        (edge_if e (cas id fired at rules found)).1
cas-Moved id fired at rules e none about there = refl
cas-Moved id fired at rules e (some row) about there =
    elim (Bool-cases (if row.fired then fired else not fired)) [
      | inl same ↦ rw same refl
      | inr differs ↦ rw differs (record {
        fired = fired;
        about = about;
        row = row;
        there = there;
        was = ground arith;
        new = record row { fired = fired; last_fired_at = or_keep at row.last_fired_at };
        now_is = refl;
        made = refl;
      })
    ]

set_fired-Moved :
    (id : ℕ) (fired : Bool) (at : Option ℕ) (rules : Rules) (e : Edge)
    → ((j : ℕ) → edge_on j e ≡ (if id == j then some fired else none))
    → Moved id rules
        (edge_if e (set_fired id fired at rules)).0
        (edge_if e (set_fired id fired at rules)).1
unfolding set_fired
set_fired-Moved id fired at rules e about = cas-Moved id fired at rules e (get rules id) about refl

evaluate_held-Moved :
    (rule : Rule) (now : ℕ) (pending : Pending) (rules : Rules)
    → Moved rule.id rules
        (evaluate_held rule now pending rules).0
        (evaluate_held rule now pending rules).1
unfolding evaluate_held
evaluate_held-Moved rule now pending rules =
    elim (Bool-cases
      (leb (first_seen now (get pending rule.id) + rule.duration_seconds) now && not rule.fired)) [
        | inr wait ↦ rw wait refl
        | inl due ↦
            rw due
              (set_fired-Moved rule.id true (some now) rules (rule_fired rule.id now) (λ j. refl))
      ]

evaluate_clear-Moved :
    (rule : Rule) (pending : Pending) (rules : Rules)
    → Moved rule.id rules
        (evaluate_clear rule pending rules).0
        (evaluate_clear rule pending rules).1
unfolding evaluate_clear
evaluate_clear-Moved rule pending rules = elim (Bool-cases rule.fired) [
  | inr quiet ↦ rw quiet refl
  | inl on ↦
      rw on (
        set_fired-Moved rule.id false none rules (recovered rule.id rule.last_fired_at) (λ j. refl))
]

evaluate_on-Moved :
    (rule : Rule) (now : ℕ) (pending : Pending) (rules : Rules) (found : List QueueStats)
    → Moved rule.id rules
        (evaluate_on rule now pending rules found).0
        (evaluate_on rule now pending rules found).1
evaluate_on-Moved rule now pending rules [] = evaluate_clear-Moved rule pending rules
evaluate_on-Moved rule now pending rules (q ∷ qs) = evaluate_held-Moved rule now pending rules

pub evaluate-Moved :
    (rule : Rule) (queues : List QueueStats) (now : ℕ) (pending : Pending) (rules : Rules)
    → Moved rule.id rules
        (evaluate rule queues now pending rules).0
        (evaluate rule queues now pending rules).1
unfolding evaluate
evaluate-Moved rule queues now pending rules =
    evaluate_on-Moved rule now pending rules (offenders rule queues)
