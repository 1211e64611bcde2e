-- ===== src/Api/Filters.antt =====
-- internal/api/handlers.go: the listings and the filters that they read. The query is the function that
-- url.Values.Get is. The id of a text that is no UUID is one that no row has.
use alertloop.Base.{
  ℕ, ltb, ◌==◌, Bool, not, ◌&&◌, Option, none, some, List, [], ◌∷◌, Text, runes, is_empty, length,
  if◌then◌else◌,
}
use alertloop.Domain.Errors.{Result, ok, err, validation}
use alertloop.Domain.Event.{valid_event_type, to_event_type}
use alertloop.Domain.Severity.{to_severity, valid_severity}
use alertloop.Routing.Matcher.{text_in}
use alertloop.Store.Session.{M, Session}
use alertloop.Store.Listing.{EventFilter, DeliveryFilter, Page, list_events, list_delivery_attempts}
use alertloop.Store.Listing.Pages.{Key}
use alertloop.Api.Respond.{
  Body, events_body, attempts_body, Response, write_domain_error, respond, shown,
}

max_search_len : ℕ
max_search_len = 200

event_states : List Text
event_states =
    runes "new" ∷ runes "acknowledged" ∷ runes "resolved" ∷ runes "muted" ∷ runes "escalated" ∷ []

channel_types : List Text
channel_types =
    runes "email"
    ∷ runes "telegram"
    ∷ runes "webhook"
    ∷ runes "slack"
    ∷ runes "teams"
    ∷ runes "discord"
    ∷ runes "ntfy"
    ∷ runes "pushover"
    ∷ []

delivery_states : List Text
delivery_states =
    runes "pending"
    ∷ runes "sending"
    ∷ runes "sent"
    ∷ runes "failed"
    ∷ runes "dead_letter"
    ∷ runes "cancelled"
    ∷ []

-- A filter that is set, to no value of its enumeration.
unfoldable pub outside : List Text → Text → Bool
unfolding text_in is_empty
outside values t = not (is_empty t) && not (text_in values t)

-- `atoi` is strconv.Atoi, with 0 for a number below it, and `utf8_valid` utf8.ValidString.
module _ (atoi : Text → Option ℕ) (utf8_valid : Text → Bool) (id_of : Text → ℕ) where
  unfoldable pub parse_limit : Text → Result ℕ
  parse_limit [] = ok 0
  parse_limit (c ∷ s) = elim (atoi (c ∷ s)) [
    | none ↦ err validation
    | some n ↦ if n == 0 then err validation else ok n
  ]

  unfoldable pub event_filter : (Text → Text) → Result EventFilter
  unfolding is_empty valid_event_type to_event_type valid_severity to_severity outside event_states
      max_search_len
  event_filter q =
      if not (is_empty (q (runes "type")))
        && not (valid_event_type (to_event_type (q (runes "type"))))
      then err validation
      else if not (is_empty (q (runes "severity")))
          && not (valid_severity (to_severity (q (runes "severity"))))
      then err validation
      else if outside event_states (q (runes "state"))
      then err validation
      else if not (utf8_valid (q (runes "source")))
      then err validation
      else if not (utf8_valid (q (runes "q")))
      then err validation
      else if ltb max_search_len (length (q (runes "q")))
      then err validation
      else ok (record {
        event_type = q (runes "type");
        severity = q (runes "severity");
        state = q (runes "state");
        source = q (runes "source");
        search = q (runes "q");
      })

  unfoldable pub delivery_filter : (Text → Text) → Result DeliveryFilter
  unfolding outside delivery_states channel_types is_empty
  delivery_filter q =
      if outside delivery_states (q (runes "state"))
      then err validation
      else if outside channel_types (q (runes "channel"))
      then err validation
      else if outside (runes "alert" ∷ runes "recovery" ∷ []) (q (runes "kind"))
      then err validation
      else ok (record {
        state = q (runes "state");
        channel = q (runes "channel");
        channel_name = q (runes "channel_name");
        event_id =
            if is_empty (q (runes "event_id")) then none else some (id_of (q (runes "event_id")));
        kind = q (runes "kind");
      })

  -- the two checks of a listing, in their order, and then the store
  unfoldable pub list_with :
      {F A : Type 0}
      → Result F
      → (F → ℕ → M (Page A))
      → (Page A → Body)
      → Text
      → Session
      → Response × Session
  unfolding write_domain_error respond shown parse_limit
  list_with (err x) list show limit s = (write_domain_error x, s)
  list_with (ok f) list show limit s = elim (parse_limit limit) [
    | err x ↦ (write_domain_error x, s)
    | ok n ↦ respond (λ page. shown (show page)) (list f n s)
  ]

  module _ (lower : Text → Text) (key_bytes : Key → List ℕ × List ℕ)
      (bytes_key : List ℕ × List ℕ → Key) where
    unfoldable pub handle_list_events : (Text → Text) → Session → Response × Session
    unfolding list_with event_filter list_events
    handle_list_events q s =
        list_with (event_filter q)
          (λ f n. list_events lower key_bytes bytes_key f n (q (runes "cursor"))) events_body
          (q (runes "limit")) s

    unfoldable pub handle_list_deliveries : (Text → Text) → Session → Response × Session
    unfolding list_with delivery_filter list_delivery_attempts
    handle_list_deliveries q s =
        list_with (delivery_filter q)
          (λ f n. list_delivery_attempts lower key_bytes bytes_key f n (q (runes "cursor")))
          attempts_body (q (runes "limit")) s
