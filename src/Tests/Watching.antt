-- ===== src/Tests/Watching.antt =====
-- Runs of an alert rule.
use Prim.Native.Nat.{◌%◌}
use queuelens.Prelude.{
  ℕ, ◌+◌, ◌-◌, ◌≡◌, refl, true, false, none, some, List, [], ◌∷◌, nat_eq, ltb, get, put, arith, inl,
  inr, Bool-cases, ◌==◌,
}
use queuelens.Prelude.Int.{pos}
use queuelens.Alerts.{
  Rule, Rules, Pending, QueueStats, rule_fired, evaluate, with_edge, offenders, evaluate_held,
  set_fired,
}
use queuelens.Alerts.Alternation.{Tracks, start, evaluated, Reachable-Tracks}
use queuelens.Alerts.Holding.{Due, started, seen, evaluate-Due, holds}
use queuelens.Alerts.Deliveries.{in_window}
use queuelens.Alerts.Deliveries.QuietHours.{Clock, hhmm, minutes, in_window-minutes}

abbrev backlog : Rule
backlog = record {
  id = 7;
  name = "backlog";
  pattern = "*.dlq";
  environment = none;
  vhost = none;
  metric = "messages";
  operator = ">";
  threshold = pos 10;
  duration_seconds = 60;
  severity = "Alert";
  channels = [];
  enabled = true;
  fired = false;
  last_fired_at = none;
}

abbrev table : Rules
table = (7, backlog) ∷ []

abbrev full : List QueueStats
full =
    record {
      name = "orders.dlq";
      messages_ready = pos 11;
      messages = pos 11;
      consumers = pos 0;
      publish_rate = none;
    }
    ∷ []

abbrev clocks : Pending
clocks = (evaluate backlog full 100 [] table).2

fires : (evaluate backlog full 160 clocks table).0 ≡ some (rule_fired 7 160)
unfolding evaluate offenders evaluate_held set_fired get put
fires = refl

evaluate-Due_example : Due backlog full 160 ((100, holds (offenders backlog full)) ∷ []) 7 160
evaluate-Due_example =
    evaluate-Due backlog full 160 clocks table ((100, holds (offenders backlog full)) ∷ []) 7 160
      (seen backlog full 100 table [] [] refl started) fires

unfired : (id : ℕ) (row : Rule) → get table id ≡ some row → row.fired ≡ false
unfolding get
unfired id row e = elim (Bool-cases (7 == id)) [
  | inl same ↦ let found : some backlog ≡ some row = rw same at e in cc found
  | inr other ↦ cc (rw other at e)
]

Reachable-Tracks_example :
    Tracks
      (evaluate backlog full 160 clocks table).1
      (with_edge (evaluate backlog full 160 clocks table).0 [])
Reachable-Tracks_example =
    Reachable-Tracks (evaluate backlog full 160 clocks table).1
      (with_edge (evaluate backlog full 160 clocks table).0 [])
      (evaluated backlog full 160 clocks table [] (start table unfired))

abbrev evening : Clock
evening = record { h1 = 2; h2 = 2; m1 = 0; m2 = 0 }

abbrev morning : Clock
morning = record { h1 = 0; h2 = 7; m1 = 0; m2 = 0 }

abbrev night : Clock
night = record { h1 = 0; h2 = 0; m1 = 3; m2 = 0 }

in_window-minutes_example :
    in_window (hhmm evening) (hhmm morning) (hhmm night)
    ≡ ltb
        ((minutes night + 1440 - minutes evening) % 1440)
        ((minutes morning + 1440 - minutes evening) % 1440)
in_window-minutes_example =
    in_window-minutes evening morning night (omega arith) (omega arith) (omega arith)
