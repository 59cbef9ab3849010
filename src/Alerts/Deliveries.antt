-- ===== src/Alerts/Deliveries.antt =====
-- Quiet hours, webhooks and channels (app/application/alert_engine.py). What a server answers to the
-- posts of a webhook, and what the mailer answers, are arguments; the local time is one, too.
pub mod QuietHours
use queuelens.Prelude.{
  ℕ, zero, suc, ◌+◌, String, Bool, true, false, not, ◌&&◌, ◌||◌, Option, none, some, List, [], ◌∷◌,
  ◌++◌, map, ◌==◌, if◌then◌else◌, string_eq, ltb, nat_eq, or_else, Dict, get, put,
}
use queuelens.Value.{codes}

-- Texts are compared by their characters' codes.
unfoldable pub codes_lt : List ℕ → List ℕ → Bool
codes_lt [] [] = false
codes_lt [] (d ∷ ds) = true
codes_lt (c ∷ cs) [] = false
codes_lt (c ∷ cs) (d ∷ ds) = let later = codes_lt cs ds in ltb c d || (c == d && later)

abbrev pub text_lt : String → String → Bool
text_lt s t = codes_lt (codes s) (codes t)

-- The settings of quiet hours; a missing time has its default.
pub record UiSettings : Type 0 where
  pub quiet_hours : Bool
  pub quiet_from : Option String
  pub quiet_until : Option String

-- `str(value or default)`
abbrev pub text_or : Option String → String → String
text_or none d = d
text_or (some t) d = if t == "" then d else t

-- The window's test, on three times.
unfoldable pub in_window : List ℕ → List ℕ → List ℕ → Bool
unfolding codes_lt
in_window start end now =
    if not (codes_lt end start)
    then not (codes_lt now start) && codes_lt now end
    else not (codes_lt now start) || codes_lt now end

-- `_in_quiet_hours`
unfoldable pub in_quiet_hours : UiSettings → String → Bool
unfolding in_window
in_quiet_hours ui now =
    ui.quiet_hours
    && in_window (codes (text_or ui.quiet_from "22:00")) (codes (text_or ui.quiet_until "07:00"))
        (codes now)

-- `WEBHOOK_RETRY_DELAYS` has three entries.
abbrev pub webhook_attempts : ℕ
webhook_attempts = 3

pub record Posted : Type 0 where
  pub ok : Bool
  pub attempts : ℕ
  pub errors : List String

-- The loop of `post_webhook`; a reply is an error's text, or none.
unfoldable pub post_from : ℕ → ℕ → List String → (ℕ → Option String) → Posted
post_from attempt zero errors reply = record {
  ok = false;
  attempts = webhook_attempts;
  errors = errors;
}
post_from attempt (suc left) errors reply = elim (reply attempt) [
  | none ↦ record { ok = true; attempts = attempt; errors = errors }
  | some error ↦ post_from (suc attempt) left (errors ++ error ∷ []) reply
]

-- `post_webhook`
unfoldable pub post_webhook : (ℕ → Option String) → Posted
unfolding post_from
post_webhook reply = post_from 1 webhook_attempts [] reply

-- A channel's outcome; what is posted says where and which event.
pub data Event : Type 0 where
  trigger resolve text message : Event

pub data Outcome : Type 0 where
  quiet not_configured unknown : Outcome
  mailed : Bool → Outcome
  posted : String → Event → Posted → Outcome

-- The answers of the outside: to a channel's posts, and of the mailer.
pub record Outside : Type 0 where
  pub reply : String → ℕ → Option String
  pub send_email : Bool

abbrev present : Option String → Bool
present none = false
present (some s) = not (s == "")

abbrev post_to : Outside → Event → Option String → Outcome
post_to outside event none = not_configured
post_to outside event (some url) =
    if url == "" then not_configured else posted url event (post_webhook (outside.reply url))

-- One channel of `_deliver`.
unfoldable pub deliver_to : Outside → Dict String String → Bool → String → Outcome
unfolding get post_webhook
deliver_to outside config resolve_it channel =
    if channel == "email"
    then (if present (get config "smtp_host") then mailed outside.send_email else not_configured)
    else if channel == "pagerduty" && present (get config "routing_key")
    then posted "https://events.pagerduty.com/v2/enqueue" (if resolve_it then resolve else trigger)
        (post_webhook (outside.reply "https://events.pagerduty.com/v2/enqueue"))
    else if channel == "slack"
    then post_to outside text (get config "url")
    else if channel == "webhook" || channel == "pagerduty"
    then post_to outside message (get config "url")
    else unknown

abbrev config_of : Option (Dict String String) → Dict String String
config_of none = []
config_of (some config) = config

unfoldable pub deliver_all :
    Outside
    → Dict String (Dict String String)
    → Bool
    → List String
    → Dict String Outcome
    → Dict String Outcome
unfolding deliver_to get put
deliver_all outside config resolve_it [] outcomes = outcomes
deliver_all outside config resolve_it (channel ∷ channels) outcomes =
    deliver_all outside config resolve_it channels (
      put outcomes channel (deliver_to outside (config_of (get config channel)) resolve_it channel))

unfoldable pub muted : List String → Dict String Outcome → Dict String Outcome
unfolding put
muted [] outcomes = outcomes
muted (channel ∷ channels) outcomes = muted channels (put outcomes channel quiet)

-- `_deliver`
unfoldable pub deliver :
    Outside
    → Dict String (Dict String String)
    → UiSettings
    → String
    → String
    → Bool
    → List String
    → Dict String Outcome
unfolding deliver_all muted in_quiet_hours
deliver outside config ui now severity resolve_it channels =
    if not (severity == "Alert") && in_quiet_hours ui now
    then muted channels []
    else deliver_all outside config resolve_it channels []
