-- ===== src/Alerts/Deliveries/QuietHours.antt =====
-- Quiet hours are an interval of the day's clock (app/application/alert_engine.py).
use Prim.Native.Nat.{◌%◌}
use queuelens.Prelude.{
  ℕ, ◌+◌, ◌-◌, ◌*◌, ◌<◌, ◌≡◌, not, ◌&&◌, ◌||◌, List, [], ◌∷◌, if◌then◌else◌, nat_eq, ltb, arith,
}
use queuelens.Alerts.Deliveries.{codes_lt, in_window}

-- The four digits of a time of the day.
pub record Clock : Type 0 where
  pub h1 : ℕ
  pub h2 : ℕ
  pub m1 : ℕ
  pub m2 : ℕ

pub record IsTime (t : Clock) : Type 0 where
  pub hour : t.h1 * 10 + t.h2 < 24
  pub unit : t.h2 < 10
  pub tens : t.m1 < 6
  pub last : t.m2 < 10

-- "HH:MM"
abbrev pub hhmm : Clock → List ℕ
hhmm t = (b'0' + t.h1) ∷ (b'0' + t.h2) ∷ b':' ∷ (b'0' + t.m1) ∷ (b'0' + t.m2) ∷ []

abbrev pub minutes : Clock → ℕ
minutes t = (t.h1 * 10 + t.h2) * 60 + t.m1 * 10 + t.m2

codes_lt-minutes :
    (s t : Clock) → IsTime s → IsTime t → codes_lt (hhmm s) (hhmm t) ≡ ltb (minutes s) (minutes t)
unfolding codes_lt
codes_lt-minutes s t i j = ground arith

window :
    (a b t : ℕ)
    → a < 1440
    → b < 1440
    → t < 1440
    → (if not (ltb b a) then not (ltb t a) && ltb t b else (not (ltb t a) || ltb t b))
      ≡ ltb ((t + 1440 - a) % 1440) ((b + 1440 - a) % 1440)
window a b t p q r = ground arith

-- The window from one time of the day to another, as "HH:MM" texts compare, has those times that lie
-- fewer minutes behind its start, round midnight, than its end does; the end is not in it, and a
-- window that ends where it starts is empty.
pub in_window-minutes :
    (start end now : Clock)
    → IsTime start
    → IsTime end
    → IsTime now
    → in_window (hhmm start) (hhmm end) (hhmm now)
      ≡ ltb
          ((minutes now + 1440 - minutes start) % 1440)
          ((minutes end + 1440 - minutes start) % 1440)
unfolding in_window
in_window-minutes start end now i j k =
    rw
      (codes_lt-minutes end start j i, codes_lt-minutes now start k i, codes_lt-minutes now end k j)
      (window (minutes start) (minutes end) (minutes now) (omega arith) (omega arith) (omega arith))
