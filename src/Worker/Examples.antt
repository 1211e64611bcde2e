-- ===== src/Worker/Examples.antt =====
-- A worker with two channels and two slots, and a queue of one attempt.
use alertloop.Domain.Truncate.{truncate_runes}
use alertloop.Base.{◌/◌, ◌≤◌, false, some, List, [], ◌∷◌, ◌≡◌, refl, arith, runes, length}
use alertloop.Domain.Errors.{ok}
use alertloop.Domain.Delivery.{DeliveryAttempt, telegram, webhook, dead_letter, sending}
use alertloop.Store.Schema.{uniques_hold}
use alertloop.Store.Session.{Session, session_code}
use alertloop.Store.Rows.{contains}
use alertloop.Store.Examples.{quiet, down, alert_to, empty_db}
use alertloop.Worker.Options.{
  Options, Channel, Registry, new_options, apply_defaults, backoff, backoff_cap,
}
use alertloop.Worker.Options.Backoff.{backoff_bounds}
use alertloop.Worker.Process.{SendError, Surroundings, outcome}
use alertloop.Worker.Process.Outcome.{Settled, outcome-Settled}
use alertloop.Worker.Scheduler.{Scheduler, skipped, wanted, fill}
use alertloop.Worker.Scheduler.Slots.{Slots, Allowed, running}
use alertloop.Worker.Scheduler.Enough.{fill-enough}
use alertloop.Worker.Scheduler.Fill.{Enforced, Fills, fill-Slots}

abbrev chat : Channel
chat = record { target = record { channel = webhook; name = runes "chat" }; timeout = 0 }

abbrev mail : Channel
mail = record {
  target = record { channel = telegram; name = runes "mail" };
  timeout = 400000000000;
}

abbrev both : Registry
both = chat ∷ mail ∷ []

abbrev opts : Options
opts = record {
  concurrency = 4;
  poll_interval = 0;
  base_backoff = 1000;
  max_backoff = 6000;
  stale_after = 0;
  shutdown_grace = 0;
  fallbacks = λ name. runes "mail";
  public_url = [];
}

backoff_bounds_example :
    (backoff_cap opts 3 / 2 ≤ backoff opts 3 7)
    × (backoff opts 3 7 ≤ backoff_cap opts 3)
    × (backoff opts 3 7 ≤ 6000)
backoff_bounds_example = backoff_bounds opts 3 7 (omega arith) (omega arith)

-- the largest draw rounds up to the whole interval, and a maximum that is no float64 number rounds too
abbrev half_minute : Options
half_minute = record opts { base_backoff = 30000000000; max_backoff = 9007199254740995 }

rounds : backoff half_minute 1 9007199254740991 ≡ 30000000000
unfolding backoff
rounds = refl

passes : backoff half_minute 40 9007199254740991 ≡ 9007199254740996
unfolding backoff
passes = refl

four_slots : 2 ≤ (new_options opts both).concurrency
unfolding new_options apply_defaults
four_slots = ground arith

-- every send fails, and no stop is asked for
abbrev failing : Surroundings
failing = record {
  send = λ ch n. some (record { text = runes "refused"; canceled = false });
  store_error = λ e. record { text = runes "store"; canceled = false };
  escaped_id = λ id. runes "id";
  stopped = false;
  draw = 0;
}

abbrev last_try : DeliveryAttempt
last_try = record (alert_to 10 (runes "chat")) { state = sending; attempts = 4 }

abbrev refused : SendError
refused = record { text = runes "refused"; canceled = false }

abbrev lost : DeliveryAttempt
lost = record last_try { state = dead_letter; attempts = 5; last_error = runes "refused" }

abbrev by_mail : DeliveryAttempt
by_mail = record (alert_to 100 (runes "mail")) { created_at = 1000; updated_at = 1000 }

gives_up :
    (outcome opts both failing last_try (some refused) (quiet empty_db)).0 ≡ ok (lost, some by_mail)
unfolding outcome session_code truncate_runes
gives_up = refl

outcome-Settled_example : Settled opts both failing last_try 1000 lost (some by_mail)
outcome-Settled_example =
    outcome-Settled opts both failing last_try (some refused) (quiet empty_db) lost (some by_mail)
      (omega arith) gives_up

abbrev idle : Scheduler
idle = record { in_flight = []; total = 0 }

idle-Slots : Slots 4 3 idle
unfolding running
idle-Slots = record { within_concurrency = omega arith; within_limit = tt; counted = refl }

abbrev two_sends : List DeliveryAttempt
two_sends = alert_to 10 (runes "chat") ∷ alert_to 11 (runes "chat") ∷ []

few : length two_sends ≤ wanted 4 3 idle
unfolding wanted
few = omega arith

allowed : Allowed (skipped 3 idle.in_flight) two_sends
unfolding skipped contains
allowed = (refl, (refl, tt))

-- Each turn finds the queue as it was at first.
abbrev same_queue : Session
same_queue = record (quiet empty_db) {
  others = λ n d. record { events = down ∷ []; attempts = two_sends };
}

enforced : Enforced same_queue
unfolding uniques_hold
enforced n d = refl

fill-Slots_example : Fills 4 3 (fill 4 4 3 (λ n. false) idle [] same_queue)
fill-Slots_example =
    fill-Slots 4 4 3 (λ n. false) idle [] same_queue (omega arith) enforced idle-Slots

fill-enough_example :
    fill 4 4 3 (λ n. false) idle [] same_queue ≡ fill 9 4 3 (λ n. false) idle [] same_queue
fill-enough_example =
    fill-enough 4 9 4 3 (λ n. false) idle [] same_queue (omega arith) (omega arith) (omega arith)
