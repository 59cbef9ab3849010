-- ===== src/Tests/Display.antt =====
-- Passwords of two messages are hidden alike.
use queuelens.Prelude.{◌≡◌, refl, String, false, none, some, [], ◌∷◌, string_eq}
use queuelens.Prelude.Int.{pos, ◌+ℤ◌}
use queuelens.Value.{Fields, end, field, text, dict, list, nil}
use queuelens.Failure.{ok}
use queuelens.Domain.{MessageRecord}
use queuelens.Domain.XDeath.{deaths}
use queuelens.Messages.{Rendering, Decoded, Shown, message_to_dict, masked_value, normalize_key}
use queuelens.Messages.Masking.{
  ShownAlike, message_to_dict-Alike, dicts, hidden, shown, same, ended,
}
use queuelens.Tests.Memory.{plain}
use queuelens.Browser.{properties_of}

abbrev rendering : Rendering
rendering = record {
  isoformat = λ t. "time";
  decode = λ bs. "bytes";
  lower = λ s. s;
  decimal = λ n. "n";
  equal = λ v w. false;
}

abbrev with_password : String → Fields
with_password p = field "pass-word" (text p) (field "name" (text "ann") end)

abbrev decoded : String → Decoded
decoded p = record {
  payload = dict (with_password p);
  payload_format = "json";
  payload_size = 40;
  decoded_from = some "gzip";
  payload_encoded = some p;
}

abbrev message : MessageRecord
message = record {
  fingerprint = "one";
  source_queue = "orders.dlq";
  body = 1 ∷ [];
  headers = ("trace", text "t") ∷ [];
  properties = properties_of plain;
  exchange = "";
  routing_key = "orders.dlq";
  redelivered = false;
  x_death = [];
}

abbrev display : Shown
display = record {
  fingerprint = "one";
  queue = "orders.dlq";
  payload = dict (field "pass-word" masked_value (field "name" (text "ann") end));
  payload_truncated = false;
  payload_format = "json";
  payload_size = 40;
  decoded_from = some "gzip";
  payload_encoded = none;
  content_type = none;
  message_id = some "m";
  correlation_id = none;
  timestamp = none;
  exchange = "";
  routing_key = "orders.dlq";
  headers = dict (field "trace" (text "t") end);
  properties = dict end;
  redelivered = false;
  x_death = list nil;
  deaths = pos 0;
}

shows_first :
    message_to_dict rendering none ("password" ∷ []) (decoded "a") end message ≡ ok display
unfolding message_to_dict deaths ◌+ℤ◌
shows_first = refl

shows_second :
    message_to_dict rendering none ("password" ∷ []) (decoded "b") end message ≡ ok display
unfolding message_to_dict deaths ◌+ℤ◌
shows_second = refl

message_to_dict-Alike_example :
    ShownAlike rendering ("password" ∷ []) (dict (with_password "a")) [] display display
unfolding normalize_key
message_to_dict-Alike_example =
    message_to_dict-Alike rendering none ("password" ∷ []) (decoded "a") (decoded "b") end end
      message message display display refl
      (dicts _ _ (
        hidden "pass-word" (text "a") (text "b") _ _ refl
          (shown "name" _ _ end end (same (text "ann")) ended)))
      (shown "trace" _ _ end end (same (text "t")) ended) ended shows_first shows_second
