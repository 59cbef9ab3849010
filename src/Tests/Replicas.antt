-- ===== src/Tests/Replicas.antt =====
-- Replicas that ask for the leadership.
use queuelens.Prelude.{ℕ, ◌≡◌, refl, true, none, get, put, nat_eq}
use queuelens.Leadership.{Cluster, fresh, served, is_leader, release, started, asks, ends}
use queuelens.Leadership.Takeover.{is_leader-exclusive, is_leader-takes_over}

abbrev replica : ℕ
replica = 3

-- Replica 3 leads.
abbrev led : Cluster
led = (is_leader 3 served fresh).1

first_leads : (is_leader 3 served fresh).0 ≡ true
unfolding is_leader get
first_leads = refl

still_leads : (is_leader 3 served led).0 ≡ true
unfolding is_leader get put
still_leads = refl

is_leader-exclusive_example : replica ≡ replica
is_leader-exclusive_example =
    is_leader-exclusive fresh replica replica served served started first_leads still_leads

-- Its session ends, and replica 5 takes over.
abbrev orphaned : Cluster
orphaned = release 0 led

released : orphaned.holder ≡ none
unfolding is_leader get release
released = refl

is_leader-takes_over_example : (is_leader 5 served (is_leader 5 served orphaned).1).0 ≡ true
is_leader-takes_over_example =
    is_leader-takes_over orphaned 5 (ends 0 led (asks 3 served fresh started)) released
