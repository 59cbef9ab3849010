-- ===== src/Broker/Log.antt =====
-- What a log of calls shows, each list in the order of the calls.
use queuelens.Prelude.{some, List, [], ◌∷◌, ◌++◌}
use queuelens.Failure.{ok}
use queuelens.Broker.{Delivery, Outgoing, Event, gets, publishes, acks, nacks}

-- The messages that `basic.get` delivered.
abbrev pub taken : List Event → List Delivery
taken [] = []
taken (gets (ok (some d)) ∷ log) = taken log ++ d ∷ []
taken (_ ∷ log) = taken log

-- The messages that the program tried to acknowledge, whatever came of it.
abbrev pub acked : List Event → List Delivery
acked [] = []
acked (acks d r ∷ log) = acked log ++ d ∷ []
acked (_ ∷ log) = acked log

-- The messages that it tried to give back.
abbrev pub nacked : List Event → List Delivery
nacked [] = []
nacked (nacks d r ∷ log) = nacked log ++ d ∷ []
nacked (_ ∷ log) = nacked log

-- What it tried to publish.
abbrev pub published : List Event → List Outgoing
published [] = []
published (publishes o x key r ∷ log) = published log ++ o ∷ []
published (_ ∷ log) = published log
