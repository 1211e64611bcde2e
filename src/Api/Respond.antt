-- ===== src/Api/Respond.antt =====
-- internal/api/respond.go, handlers.go: the answers, and what a handler gets of a body.
use alertloop.Base.{ℕ, Option, List, Text, runes}
use alertloop.Domain.Errors.{
  Error, Result, ok, err, not_found, invalid_transition, invalid_action, validation, not_replayable,
  source_not_allowed, state_changed, unique_violation, database,
}
use alertloop.Domain.Event.{Event, EventState}
use alertloop.Domain.Delivery.{DeliveryAttempt}
use alertloop.Store.Session.{Session}
use alertloop.Store.Listing.{Page}
use alertloop.Service.Ingest.{IngestOutcome}

-- readBody and json.Unmarshal: a body over its limit, one that does not arrive, one that is no JSON
-- of the type, and a value
pub data Incoming (A : Type 0) : Type 0 where
  too_large unread malformed : Incoming A
  arrived : A → Incoming A

-- statsResponse; an age is in seconds
pub record Stats : Type 0 where
  pub events : List (Text × ℕ)
  pub deliveries : List (Text × ℕ)
  pub open_incidents : ℕ
  pub oldest_due_age : Option ℕ
  pub dead_letters : ℕ
  pub worker_last_tick : Option ℕ

-- The text of an error body: a fixed one, "request body exceeds %d bytes", or what err.Error()
-- gives, whose details the errors of the store do not carry here.
pub data Message : Type 0 where
  says : Text → Message
  exceeds : ℕ → Message
  error_text : Error → Message

-- what the body of an answer shows
pub data Body : Type 0 where
  nothing : Body
  error_body : Text → Message → Body
  event_body : Event → Body
  -- ingestResponse and ingestSummary
  ingest_response : Event → IngestOutcome → Body
  ingest_summary : ℕ → EventState → IngestOutcome → Body
  events_body : Page Event → Body
  attempts_body : Page DeliveryAttempt → Body
  attempt_body : DeliveryAttempt → Body
  preview_body : Text → List Text → Body
  stats_body : Stats → Body

pub record Response : Type 0 where
  pub status : ℕ
  pub body : Body

unfoldable pub error_response : ℕ → Text → Message → Response
error_response status code message = record { status = status; body = error_body code message }

-- writeDomainError
unfoldable pub write_domain_error : Error → Response
unfolding error_response
write_domain_error not_found =
    error_response 404 (runes "not_found") (says (runes "resource not found"))
write_domain_error validation =
    error_response 400 (runes "validation_failed") (error_text validation)
write_domain_error invalid_transition =
    error_response 409 (runes "invalid_transition") (error_text invalid_transition)
write_domain_error invalid_action =
    error_response 400 (runes "invalid_action") (error_text invalid_action)
write_domain_error source_not_allowed =
    error_response 403 (runes "source_not_allowed") (error_text source_not_allowed)
write_domain_error not_replayable =
    error_response 409 (runes "not_replayable") (error_text not_replayable)
write_domain_error state_changed =
    error_response 500 (runes "internal_error") (says (runes "internal server error"))
write_domain_error unique_violation =
    error_response 500 (runes "internal_error") (says (runes "internal server error"))
write_domain_error database =
    error_response 500 (runes "internal_error") (says (runes "internal server error"))

-- the answer to a result: `show` of a value, or its error
unfoldable pub respond : {A : Type 0} → (A → Response) → Result A × Session → Response × Session
unfolding write_domain_error
respond show (ok a, s) = (show a, s)
respond show (err x, s) = (write_domain_error x, s)

unfoldable pub shown : Body → Response
shown b = record { status = 200; body = b }
