-- ===== src/Tests/Notices.antt =====
-- One view that is told by mail, a mail server that does not answer at first, and the retries.
use phantom_share.Prelude.{◌+◌, ◌*◌, ◌≤◌, ◌≡◌, refl, true, false, none, some, List, [], ◌∷◌, arith}
use phantom_share.Notifications.{
  Event, View, viewed, delivered, retried, email, mail, run, drain, has_failed, Round, told, took,
}
use phantom_share.Notifications.Messages.{Json, Smtp, Station, email_payload}
use phantom_share.Notifications.Lanes.{Lane, Lanes, station, spec_run}
use phantom_share.Notifications.Runs.{run_lanes}
use phantom_share.Notifications.Accounting.{total, handed_in, total-run}
use phantom_share.Notifications.Draining.{drain-Ends}

-- A text for the one dict that is used here.
abbrev json : Json
json = record { dumps = λ p. "j"; loads = λ s. some (email_payload "a@b" "2" "unknown") }

abbrev smtp : Smtp
smtp = record { username = "u"; password = "p"; sender = "s@b" }

abbrev quiet : Lane
quiet = record { waiting = []; failed = [] }

abbrev idle : Lanes
idle = record {
  emails = quiet;
  webhooks = quiet;
  exchange = true;
  mails = [];
  posts = [];
  alerts = [];
  clock = 0;
}

abbrev view : View
view = record {
  secret_id = "2";
  notify_email = some "a@b";
  webhook_url = none;
  actor_ip = none;
  email_accepted = true;
  webhook_accepted = true;
}

abbrev late_mail : List Event
late_mail = viewed view ∷ delivered (mail false) ∷ retried email true ∷ delivered (mail true) ∷ []

run_lanes_example :
    run json smtp late_mail (station idle) ≡ station (spec_run json smtp late_mail idle)
run_lanes_example = run_lanes json smtp late_mail idle

-- Each mail weighs one, and each request two.
total-run_example :
    total json smtp (λ _. 1) (λ _. 2) (run json smtp late_mail (station idle))
    ≡ handed_in json smtp (λ _. 1) (λ _. 2) late_mail
      + total json smtp (λ _. 1) (λ _. 2) (station idle)
total-run_example = total-run json smtp (λ _. 1) (λ _. 2) late_mail idle refl

-- A message that was rejected twice.
abbrev stuck : Lanes
stuck = record idle {
  emails = record { waiting = []; failed = record { body = "j"; attempt = some 1 } ∷ [] };
}

-- The mail server fails for good, and another view is told while the loop sleeps.
abbrev failing : List Round
failing =
    record { meanwhile = told view ∷ took (mail false) ∷ []; accepted = true }
    ∷ record { meanwhile = took (mail false) ∷ []; accepted = true }
    ∷ []

drain-Ends_example :
    (s : Station) × (drain json smtp 8 email failing (station stuck) ≡ (true, s))
    × (has_failed email s ≡ false)
    × (s.clock ≤ 0 + 6 + 7 * 1)
drain-Ends_example = drain-Ends json smtp 8 email failing stuck (refl, (refl, tt)) (omega arith)
