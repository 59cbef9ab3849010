-- ===== src/Tests/Shelf.antt =====
-- A broker in memory that hands out again what is given back, under a new tag.
use queuelens.Prelude.{
  ℕ, suc, String, Option, none, some, List, [], ◌∷◌, ◌++◌, contains, length, nat_eq, string_eq,
}
use queuelens.Broker.{Broker, Delivery, Outgoing, Answer, answer, World}

pub record Shelf : Type 0 where
  pub next : ℕ
  pub ready : List Delivery
  pub settled : List ℕ
  pub sent : List (String × Outgoing)

abbrev pub hand_out : List Delivery → Shelf → Answer (Option Delivery) × Shelf
hand_out [] s = (answer none, s)
hand_out (d ∷ rest) s =
    (answer (some (record d { tag = s.next })), record s { next = suc s.next; ready = rest })

abbrev pub shelf : Broker
shelf = record {
  S = Shelf;
  open_channel = λ s. (answer tt, s);
  close_channel = λ s. (answer tt, s);
  declare_queue = λ q passive s. (answer (length s.ready), s);
  get_exchange = λ x ensure s. (answer tt, s);
  get_message = λ q s. hand_out s.ready s;
  publish = λ o x key s. (answer tt, record s { sent = s.sent ++ (key, o) ∷ [] });
  ack = λ d s. (answer tt, record s { settled = d.tag ∷ s.settled });
  nack = λ d s. (answer tt, record s { settled = d.tag ∷ s.settled; ready = s.ready ++ d ∷ [] });
  processed = λ d s. contains s.settled d.tag;
}

abbrev pub stocked : List Delivery → World shelf
stocked ready = record {
  state = record { next = 1; ready = ready; settled = []; sent = [] };
  log = [];
}
