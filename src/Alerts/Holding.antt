-- ===== src/Alerts/Holding.antt =====
-- A rule fires only after its condition has held for its duration, as its replica has seen it
-- (app/application/alert_engine.py).
use queuelens.Prelude.{
  ℕ, ◌+◌, ◌≤◌, ◌≡◌, refl, sym, ap, ◌∙◌, subst, inl, inr, ◌⊎◌, Bool, true, false, not, ◌&&◌, Option,
  none, some, List, [], ◌∷◌, ◌==◌, if◌then◌else◌, nat_eq, leb, get, get-put, get-remove, Absent,
  beq_self, arith, Bool-cases,
}
use queuelens.Alerts.{
  Rule, Rules, Pending, QueueStats, Edge, rule_fired, recovered, set_fired, mark_fired, edge_if,
  first_seen, evaluate_held, evaluate_clear, evaluate_on, evaluate, offenders,
}

abbrev pub holds : List QueueStats → Bool
holds [] = false
holds (q ∷ qs) = true

-- What a replica has seen of a rule, the latest first: when, and whether the condition held.
abbrev pub History : Type 0
History = List (ℕ × Bool)

-- From the evaluation at `t` on, every one has found the condition to hold.
pub HeldSince : ℕ → History → Type 0
HeldSince t [] = Absent
HeldSince t ((now, held) ∷ older) = (held ≡ true) × ((now ≡ t) ⊎ HeldSince t older)

-- The clocks of a replica and what it has seen of rule `id`: it evaluates that rule and others, as it
-- reads them, and loses its clocks with the leadership.
pub data Watched (id : ℕ) : Pending → History → Type 0 where
  started : Watched id [] []
  seen :
      (rule : Rule) (queues : List QueueStats) (now : ℕ) (rules : Rules) (pending : Pending)
      (history : History)
      → rule.id ≡ id
      → Watched id pending history
      → Watched id
          (evaluate rule queues now pending rules).2
          ((now, holds (offenders rule queues)) ∷ history)
  other :
      (rule : Rule) (queues : List QueueStats) (now : ℕ) (rules : Rules) (pending : Pending)
      (history : History)
      → (rule.id == id) ≡ false
      → Watched id pending history
      → Watched id (evaluate rule queues now pending rules).2 history
  deposed :
      (pending : Pending) (history : History) → Watched id pending history → Watched id [] history

-- The clock of a rule after its evaluation.
clock_on :
    (rule : Rule) (now : ℕ) (pending : Pending) (rules : Rules) (found : List QueueStats)
    → get (evaluate_on rule now pending rules found).2 rule.id
      ≡ (if holds found then some (first_seen now (get pending rule.id)) else none)
unfolding evaluate_held evaluate_clear
clock_on rule now pending rules [] = get-remove pending rule.id rule.id ∙ rw (beq_self rule.id) refl
clock_on rule now pending rules (q ∷ qs) =
    get-put pending rule.id rule.id (first_seen now (get pending rule.id))
    ∙ rw (beq_self rule.id) refl

clock_other :
    (rule : Rule) (now j : ℕ) (pending : Pending) (rules : Rules) (found : List QueueStats)
    → (rule.id == j) ≡ false
    → get (evaluate_on rule now pending rules found).2 j ≡ get pending j
unfolding evaluate_held evaluate_clear
clock_other rule now j pending rules [] apart = get-remove pending rule.id j ∙ rw apart refl
clock_other rule now j pending rules (q ∷ qs) apart =
    get-put pending rule.id j (first_seen now (get pending rule.id)) ∙ rw apart refl

seen-HeldSince :
    (now t : ℕ) (clock : Option ℕ) (history : History)
    → ((s : ℕ) → clock ≡ some s → HeldSince s history)
    → first_seen now clock ≡ t
    → HeldSince t ((now, true) ∷ history)
unfolding HeldSince
seen-HeldSince now t none history h e = (refl, inl e)
seen-HeldSince now t (some s) history h e =
    (refl, inr (subst (λ u. HeldSince u history) e (h s refl)))

Watched-HeldSince :
    (id : ℕ) (pending : Pending) (history : History)
    → Watched id pending history
    → (t : ℕ) → get pending id ≡ some t
    → HeldSince t history
unfolding get evaluate
Watched-HeldSince id _ _ started t e = cc e
Watched-HeldSince id _ _ (seen rule queues now rules pending history same w) t e =
    let found = offenders rule queues in
    let clock : (if holds found then some (first_seen now (get pending rule.id)) else none)
        ≡ some t =
      sym (clock_on rule now pending rules found)
      ∙ ap (λ k. get (evaluate_on rule now pending rules found).2 k) same
      ∙ e in
    elim (Bool-cases (holds found)) [
      | inr clear ↦ cc (rw clear at clock)
      | inl held ↦
          let since : some (first_seen now (get pending rule.id)) ≡ some t = rw held at clock in
          rw held (
            seen-HeldSince now t (get pending rule.id) history
              (λ u g.
                Watched-HeldSince id pending history w u (sym (ap (λ k. get pending k) same) ∙ g))
              (cc since))
    ]
Watched-HeldSince id _ _ (other rule queues now rules pending history apart w) t e =
    Watched-HeldSince id pending history w t
      (sym (clock_other rule now id pending rules (offenders rule queues) apart) ∙ e)
Watched-HeldSince id _ _ (deposed pending history w) t e = cc e

edge_if-some : (e f : Edge) (p : Bool × Rules) → (edge_if e p).0 ≡ some f → e ≡ f
edge_if-some e f (true, rules) h = cc h
edge_if-some e f (false, rules) h = cc h

-- What an evaluation that fires has found.
pub record Due (rule : Rule) (queues : List QueueStats) (now : ℕ) (history : History) (id at : ℕ)
    : Type 0 where
  pub own : (id ≡ rule.id) × (at ≡ now)
  pub unfired : rule.fired ≡ false
  pub met : holds (offenders rule queues) ≡ true
  pub first : ℕ
  pub since : HeldSince first ((now, true) ∷ history)
  pub long : first + rule.duration_seconds ≤ now

fired_on :
    (rule : Rule) (now : ℕ) (pending : Pending) (rules : Rules) (found : List QueueStats)
    (id at : ℕ)
    → (evaluate_on rule now pending rules found).0 ≡ some (rule_fired id at)
    → (holds found ≡ true)
      × (rule_fired rule.id now ≡ rule_fired id at)
      × (rule.fired ≡ false)
      × (first_seen now (get pending rule.id) + rule.duration_seconds ≤ now)
unfolding evaluate_held evaluate_clear
fired_on rule now pending rules [] id at e = elim (Bool-cases rule.fired) [
  | inl on ↦ cc (
      edge_if-some (recovered rule.id rule.last_fired_at) (rule_fired id at)
        (set_fired rule.id false none rules) (rw on at e))
  | inr off ↦ cc (rw off at e)
]
fired_on rule now pending rules (q ∷ qs) id at e =
    elim (Bool-cases
      (leb (first_seen now (get pending rule.id) + rule.duration_seconds) now && not rule.fired)) [
        | inr wait ↦ cc (rw wait at e)
        | inl due ↦ (
          refl,
          edge_if-some (rule_fired rule.id now) (rule_fired id at) (mark_fired rule.id now rules)
              (rw due at e),
          ground (arith, due),
          ground (arith, due),
        )
      ]

-- A replica fires a rule, for the time of the evaluation, only if the rule as read had not fired, a
-- queue meets its condition now, and the replica has found the condition to hold at each of its
-- evaluations of the rule since one that lies the rule's duration back or longer.
pub evaluate-Due :
    (rule : Rule) (queues : List QueueStats) (now : ℕ) (pending : Pending) (rules : Rules)
    (history : History) (id at : ℕ)
    → Watched rule.id pending history
    → (evaluate rule queues now pending rules).0 ≡ some (rule_fired id at)
    → Due rule queues now history id at
unfolding evaluate
evaluate-Due rule queues now pending rules history id at w e =
    let (met, own, unfired, long) =
      fired_on rule now pending rules (offenders rule queues) id at e in
    record {
      own = (cc own, cc own);
      unfired = unfired;
      met = met;
      first = first_seen now (get pending rule.id);
      since =
          seen-HeldSince now (first_seen now (get pending rule.id)) (get pending rule.id) history
            (λ u g. Watched-HeldSince rule.id pending history w u g) refl;
      long = long;
    }
