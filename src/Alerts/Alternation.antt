-- ===== src/Alerts/Alternation.antt =====
-- Any number of replicas that evaluate the rules, in any order and on rows of any age, notify of each
-- firing and each recovery once (app/application/alert_engine.py).
use queuelens.Prelude.{
  ℕ, ◌≡◌, refl, sym, ap, ◌∙◌, subst, inl, inr, Bool, false, not, Option, none, some, List, [], ◌∷◌,
  ◌==◌, if◌then◌else◌, nat_eq, get, put, get-put, arith, Bool-cases, beq_self,
}
use queuelens.Alerts.{Rule, Rules, Pending, QueueStats, Edge, with_edge, evaluate}
use queuelens.Alerts.Switches.{edge_on, Switch, Moved, evaluate-Moved}

abbrev latest : Option Bool → Bool → Bool
latest none on = on
latest (some fired) on = fired

-- Whether a rule's last edge is a firing. The latest edge stands first.
pub is_on : ℕ → List Edge → Bool
is_on id [] = false
is_on id (e ∷ log) = latest (edge_on id e) (is_on id log)

abbrev Turns : Bool → Option Bool → Type 0
Turns on none = Unit
Turns on (some fired) = fired ≡ not on

-- A rule's edges alternate, from a firing on.
pub Alternates : ℕ → List Edge → Type 0
Alternates id [] = Unit
Alternates id (e ∷ log) = Turns (is_on id log) (edge_on id e) × Alternates id log

-- The tables and the edges, from rules that have not fired: any replica evaluates any row that it has
-- read, with clocks of its own, and rules are edited.
pub data Reachable : Rules → List Edge → Type 0 where
  start :
      (rules : Rules)
      → ((id : ℕ) (row : Rule) → get rules id ≡ some row → row.fired ≡ false)
      → Reachable rules []
  evaluated :
      (rule : Rule) (queues : List QueueStats) (now : ℕ) (pending : Pending) (rules : Rules)
      (log : List Edge)
      → Reachable rules log
      → Reachable
          (evaluate rule queues now pending rules).1
          (with_edge (evaluate rule queues now pending rules).0 log)
  edited :
      (id : ℕ) (row new : Rule) (rules : Rules) (log : List Edge)
      → get rules id ≡ some row
      → new.fired ≡ row.fired
      → Reachable rules log
      → Reachable (put rules id new) log

pub record Tracks (rules : Rules) (log : List Edge) : Type 0 where
  pub tracked : (id : ℕ) (row : Rule) → get rules id ≡ some row → is_on id log ≡ row.fired
  pub alternating : (id : ℕ) → Alternates id log

put-tracked :
    (id : ℕ) (new : Rule) (rules : Rules) (before after : List Edge)
    → ((j : ℕ) → (id == j) ≡ false → is_on j after ≡ is_on j before)
    → is_on id after ≡ new.fired
    → ((j : ℕ) (row : Rule) → get rules j ≡ some row → is_on j before ≡ row.fired)
    → (j : ℕ) (row : Rule) → get (put rules id new) j ≡ some row
    → is_on j after ≡ row.fired
put-tracked id new rules before after others own h j row e = elim (Bool-cases (id == j)) [
  | inl same ↦
      let found : some new ≡ some row = sym (get-put rules id j new ∙ rw same refl) ∙ e in
      ap (λ k. is_on k after) (sym ((nat_eq.agrees id j).0 same)) ∙ own ∙ cc found
  | inr other ↦ others j other ∙ h j row (sym (get-put rules id j new ∙ rw other refl) ∙ e)
]

-- What an edge of rule `id` does to another rule, and to its own.
is_on-other :
    (id j : ℕ) (f : Bool) (e : Edge) (log : List Edge)
    → edge_on j e ≡ (if id == j then some f else none)
    → (id == j) ≡ false
    → is_on j (e ∷ log) ≡ is_on j log
unfolding is_on
is_on-other id j f e log about other = rw (about, other) refl

is_on-own :
    (id : ℕ) (f : Bool) (e : Edge) (log : List Edge)
    → edge_on id e ≡ some f
    → is_on id (e ∷ log) ≡ f
unfolding is_on
is_on-own id f e log about = rw about refl

own_edge : (id : ℕ) (f : Bool) → (if id == id then some f else none) ≡ some f
own_edge id f = rw (beq_self id) refl

Alternates-Switch :
    (id j : ℕ) (e : Edge) (before after : Rules) (log : List Edge)
    → Tracks before log
    → Switch id before e after
    → Alternates j (e ∷ log)
unfolding Alternates
Alternates-Switch id j e before after log t s = (turn, t.alternating j)
  where
    turn : Turns (is_on j log) (edge_on j e)
    turn = elim (Bool-cases (id == j)) [
      | inr other ↦ rw (s.about j, other) tt
      | inl same ↦
          rw (s.about j, same)
            (ground (
              arith,
              t.tracked id s.row s.there,
              s.was,
              ap (λ k. is_on k log) ((nat_eq.agrees id j).0 same),
            ))
    ]

Tracks-Switch :
    (id : ℕ) (e : Edge) (before after : Rules) (log : List Edge)
    → Tracks before log
    → Switch id before e after
    → Tracks after (e ∷ log)
Tracks-Switch id e before after log t s = record {
  tracked =
      subst (λ table. (j : ℕ) (row : Rule) → get table j ≡ some row → is_on j (e ∷ log) ≡ row.fired)
        (sym s.made)
        (put-tracked id s.new before log (e ∷ log)
          (λ j other. is_on-other id j s.fired e log (s.about j) other)
          (is_on-own id s.fired e log (s.about id ∙ own_edge id s.fired) ∙ sym s.now_is) t.tracked);
  alternating = λ j. Alternates-Switch id j e before after log t s;
}

Tracks-Moved :
    (id : ℕ) (edge : Option Edge) (before after : Rules) (log : List Edge)
    → Tracks before log
    → Moved id before edge after
    → Tracks after (with_edge edge log)
Tracks-Moved id none before after log t m = subst (λ table. Tracks table log) (sym m) t
Tracks-Moved id (some e) before after log t m = Tracks-Switch id e before after log t m

-- Whatever replicas evaluate which rules, in whatever order, on rows and clocks of whatever age, the
-- edges of each rule alternate, a firing first, and the rule's row says which was the last.
pub Reachable-Tracks : (rules : Rules) (log : List Edge) → Reachable rules log → Tracks rules log
unfolding is_on Alternates
Reachable-Tracks _ _ (start rules fresh) = record {
  tracked = λ id row e. sym (fresh id row e);
  alternating = λ id. tt;
}
Reachable-Tracks _ _ (evaluated rule queues now pending rules log r) =
    Tracks-Moved rule.id (evaluate rule queues now pending rules).0 rules
      (evaluate rule queues now pending rules).1 log (Reachable-Tracks rules log r)
      (evaluate-Moved rule queues now pending rules)
Reachable-Tracks _ _ (edited id row new rules log there same r) =
    let t = Reachable-Tracks rules log r in
    record {
      tracked =
          put-tracked id new rules log log (λ j other. refl) (t.tracked id row there ∙ sym same)
            t.tracked;
      alternating = t.alternating;
    }
