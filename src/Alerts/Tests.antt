-- ===== src/Alerts/Tests.antt =====
-- Alerts, one after the other.
use mail_router.Prelude.{◌≡◌, refl, true, [], ◌∷◌, ◌++◌, codes}
use mail_router.Exec.{ok}
use mail_router.Alerts.{Alerter, Message, notify}
use mail_router.Alerts.Throttle.{notify_all, of_event, notify-throttled}

-- A clock that stands still.
abbrev alerter : Alerter
alerter = record {
  config = record { enabled = true; to_addresses = codes "admin@shpd.cz" ∷ []; throttle = 60 };
  last_sent = [];
  monotonic = λ _. 5;
  readings = 0;
  takes = λ _. true;
  tried = 0;
  sent = [];
}

abbrev burial : Message
burial = record { event = codes "dead_letter"; subject = codes "one"; body = [] }

abbrev backlog : Message
backlog = record { event = codes "queue_backlog"; subject = codes "101"; body = [] }

sent_first : (notify burial alerter).0 ≡ ok true
unfolding notify
sent_first = refl

notify-throttled_example :
    of_event burial.event (notify_all (burial ∷ backlog ∷ []) (notify burial alerter).1).sent
    ≡ of_event burial.event alerter.sent ++ burial ∷ []
notify-throttled_example =
    notify-throttled burial alerter (burial ∷ backlog ∷ []) sent_first refl (λ n le. refl)
