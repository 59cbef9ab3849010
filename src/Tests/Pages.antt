-- ===== src/Tests/Pages.antt =====
-- Runs of the snapshot store.
use queuelens.Prelude.{
  ◌≡◌, refl, String, none, some, [], ◌∷◌, ℕ, ◌<◌, arith, get as dict_get, put, remove,
}
use queuelens.Snapshots.{Snapshot, Scope, Store, add, get, evict}
use queuelens.Snapshots.Answers.{
  Reachable, created, added, read, WellFormed, Reachable-WellFormed, get_returns_own, found_again,
  adds,
}

abbrev production : Scope
production = record { environment = "prod"; vhost = "/" }

abbrev page : String → ℕ → Snapshot
page id now = record {
  id = id;
  scope = production;
  queue = "orders.dlq";
  records = [];
  ready = 0;
  stopped = none;
  depth = 500;
  created_at = now;
}

abbrev one_page : Store
one_page = add 10 (page "first" 10) []

one_page-Reachable : Reachable one_page
one_page-Reachable = added 10 (page "first" 10) [] created

first_found : (get 20 "first" production "orders.dlq" one_page).0 ≡ some (page "first" 10)
unfolding get add evict put remove dict_get
first_found = refl

Reachable-WellFormed_example : WellFormed (get 20 "first" production "orders.dlq" one_page).1
Reachable-WellFormed_example =
    Reachable-WellFormed (get 20 "first" production "orders.dlq" one_page).1
      (read 20 "first" production "orders.dlq" one_page one_page-Reachable)

get_returns_own_example :
    ((page "first" 10).id ≡ "first")
    × (production.environment ≡ production.environment)
    × (production.vhost ≡ production.vhost)
    × ((page "first" 10).queue ≡ "orders.dlq")
    × (20 < 300000010)
get_returns_own_example =
    get_returns_own 20 "first" production "orders.dlq" one_page (page "first" 10) one_page-Reachable
      first_found

found_again_example :
    (get 40 "first" production "orders.dlq"
      (adds ((30, page "second" 30) ∷ []) (get 20 "first" production "orders.dlq" one_page).1)).0
    ≡ some (page "first" 10)
found_again_example =
    found_again 20 40 "first" production "orders.dlq" one_page (page "first" 10)
      ((30, page "second" 30) ∷ []) first_found (omega arith) ((omega arith, refl), tt)
      (omega arith)
