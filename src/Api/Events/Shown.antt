-- ===== src/Api/Events/Shown.antt =====
-- internal/api/handlers.go: what an answer tells of the tables.
use alertloop.Base.{ℕ, ◌≤◌, ◌≡◌, refl, true, Bool, Text, arith, Option-cases, inl, inr}
use alertloop.Domain.Errors.{Result, ok, err}
use alertloop.Domain.Action.{parse_action, EventAction}
use alertloop.Store.Session.{Session}
use alertloop.Store.Session.Spares.{Untouched, here, is_err}
use alertloop.Service.Transition.{apply, RecoveryNotifier}
use alertloop.Service.Transition.Spared.{apply-Spares}
use alertloop.Service.Input.{EventInput}
use alertloop.Service.Ingest.{IngestResult, IngestService, ingest_for}
use alertloop.Service.Ingest.Unchanged.{ingest_for-err}
use alertloop.Api.Access.{Caller}
use alertloop.Api.Respond.{
  Incoming, too_large, unread, malformed, arrived, event_body, Response, respond, shown,
}
use alertloop.Api.Events.{ingest_answer, handle_ingest, handle_event_action}

respond-refused :
    {A : Type 0} (show : A → Response) (r : Result A) (s t : Session)
    → ((a : A) → (show a).status ≤ 399)
    → (is_err r ≡ true → Untouched s t)
    → 400 ≤ (respond show (r, t)).0.status
    → Untouched s (respond show (r, t)).1
unfolding respond
respond-refused show (ok a) s t small k h = absurd (omega (arith, small a))
respond-refused show (err x) s t small k h = k refl

ingest_answer-le : (who : Caller) (r : IngestResult) → (ingest_answer who r).status ≤ 399
unfolding ingest_answer
ingest_answer-le who r = ground arith

module _ (table : ℕ → ℕ) (svc : IngestService) (json_valid : Text → Bool)
    (byte_length : Text → ℕ) where
  -- A POST of an event that is answered with an error status has changed nothing, at whatever
  -- statement it failed and whatever the others did: the tables are what the commits of the others
  -- made of those that it found.
  pub handle_ingest-refused :
      (body : Incoming EventInput) (who : Caller) (s : Session)
      → 400 ≤ (handle_ingest table svc json_valid byte_length body who s).0.status
      → Untouched s (handle_ingest table svc json_valid byte_length body who s).1
  unfolding handle_ingest
  handle_ingest-refused too_large who s h = here
  handle_ingest-refused unread who s h = here
  handle_ingest-refused malformed who s h = here
  handle_ingest-refused (arrived input) who s h =
      respond-refused (ingest_answer who)
        (ingest_for table svc json_valid byte_length input who.sources s).0 s
        (ingest_for table svc json_valid byte_length input who.sources s).1 (ingest_answer-le who)
        (λ e. failed (ingest_for table svc json_valid byte_length input who.sources s).0 refl e) h
    where
      failed :
          (r : Result IngestResult)
          → (ingest_for table svc json_valid byte_length input who.sources s).0 ≡ r
          → is_err r ≡ true
          → Untouched s (ingest_for table svc json_valid byte_length input who.sources s).1
      failed (ok a) e p = cc
      failed (err x) e p = ingest_for-err table svc json_valid byte_length input who.sources s x e

applied-refused :
    (rec : RecoveryNotifier) (id : ℕ) (a : EventAction) (s : Session)
    → 400 ≤ (respond (λ e. shown (event_body e)) (apply rec id a s)).0.status
    → Untouched s (respond (λ e. shown (event_body e)) (apply rec id a s)).1
applied-refused rec id a s h =
    respond-refused (λ e. shown (event_body e)) (apply rec id a s).0 s (apply rec id a s).1
      (λ e. unfold shown in omega arith) (apply-Spares rec id a s) h

-- An action on an event that is answered with an error status has changed nothing: the tables are
-- what the commits of the others made of those that it found.
pub handle_event_action-refused :
    (rec : RecoveryNotifier) (id : ℕ) (action : Text) (s : Session)
    → 400 ≤ (handle_event_action rec id action s).0.status
    → Untouched s (handle_event_action rec id action s).1
unfolding handle_event_action
handle_event_action-refused rec id action s h = elim (Option-cases (parse_action action)) [
  | inl e ↦ rw (e, handle_event_action) here
  | inr (a, e) ↦
      rw (e, handle_event_action) (applied-refused rec id a s (rw (e, handle_event_action) at h))
]
