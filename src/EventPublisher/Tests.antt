-- ===== src/EventPublisher/Tests.antt =====
-- A publisher with two subscribers that log what they get, and its theorems at three events.
use c_embedded_utils.Common.{ℕ, ◌+◌, ◌*◌, ◌≡◌, refl, some, List, [], ◌∷◌, arith}
use c_embedded_utils.EventPublisher.{EventPublisherEntry, EventPublisher, notify_subscribers}
use c_embedded_utils.EventPublisher.Deliver.{notify_all, deliver_all, notify_all_lem}

abbrev logger : ℕ → EventPublisherEntry ℕ ℕ (List ℕ)
logger name = record {
  context = name;
  callback = λ context event log. (context * 10 + event) ∷ log;
}

abbrev two_loggers : EventPublisher ℕ ℕ (List ℕ)
two_loggers = record {
  config = record { subscribers = logger 1 ∷ logger 2 ∷ logger 3 ∷ []; subscriber_count = 2 };
}

-- The last call stands first in the log.
notify-two_loggers : notify_all two_loggers (5 ∷ 6 ∷ []) [] ≡ some (26 ∷ 16 ∷ 25 ∷ 15 ∷ [])
unfolding notify_all notify_subscribers
notify-two_loggers = refl

notify_all_lem_example :
    notify_all two_loggers (5 ∷ 6 ∷ 7 ∷ []) []
    ≡ some (deliver_all (logger 1 ∷ logger 2 ∷ []) (5 ∷ 6 ∷ 7 ∷ []) [])
notify_all_lem_example = notify_all_lem two_loggers (omega arith) (5 ∷ 6 ∷ 7 ∷ []) []
