-- ===== src/Store/Listing.antt =====
-- internal/storage/sql_store.go: ListEvents and ListDeliveryAttempts. The text of a time is that of
-- formatTime, and the engine's lower is a parameter. What linkAttempts adds is left out.
pub mod Pages
pub mod Order
pub mod Walk
pub mod Base64
pub mod Cursor
pub mod Complete
use alertloop.Base.{
  ℕ, ltb, leb, ◌==◌, Bool, true, false, not, ◌&&◌, ◌||◌, Option, none, some, List, [], ◌∷◌, ◌++◌,
  Text, text_eq, is_empty, runes, if◌then◌else◌,
}
use alertloop.Domain.Errors.{ok, err, validation}
use alertloop.Domain.Event.{Event, EventState, acknowledged, muted, escalated, event_type_text}
use alertloop.Domain.Severity.{severity_text}
use alertloop.Domain.Delivery.{
  DeliveryAttempt, ChannelType, email, telegram, webhook, slack, teams, discord, ntfy, pushover,
  DeliveryState, pending, sending, sent, failed, dead_letter, cancelled, DeliveryKind, alert,
  recovery,
}
use alertloop.Store.Schema.{Db}
use alertloop.Store.Session.{M, read, autocommit, raise}
use alertloop.Store.Listing.Pages.{Key, fetched, page_of}
use alertloop.Store.Listing.Cursor.{encode_cursor, decode_cursor}

unfoldable pub clamp_limit : ℕ → ℕ
clamp_limit limit = if limit == 0 then 50 else if ltb 200 limit then 200 else limit

-- likeEscaper
unfoldable pub like_escape : Text → Text
like_escape [] = []
like_escape (c ∷ s) =
    if c == b'\\' || c == b'%' || c == b'_' then b'\\' ∷ c ∷ like_escape s else c ∷ like_escape s

any_suffix : (Text → Bool) → Text → Bool
any_suffix p [] = p []
any_suffix p (c ∷ s) = p (c ∷ s) || any_suffix p s

first_is : ℕ → (Text → Bool) → Text → Bool
first_is c p [] = false
first_is c p (d ∷ s) = c == d && p s

skip_one : (Text → Bool) → Text → Bool
skip_one p [] = false
skip_one p (d ∷ s) = p s

-- the pattern of LIKE … ESCAPE '\', after a backslash or not
unfoldable pub like : Bool → Text → Text → Bool
unfolding any_suffix first_is skip_one is_empty
like escaped [] s = not escaped && is_empty s
like true (c ∷ p) s = first_is c (like false p) s
like false (c ∷ p) s =
    if c == b'\\'
    then like true p s
    else if c == b'%'
    then any_suffix (like false p) s
    else if c == b'_'
    then skip_one (like false p) s
    else first_is c (like false p) s

unfoldable pub state_text : EventState → Text
state_text EventState.new = runes "new"
state_text acknowledged = runes "acknowledged"
state_text EventState.resolved = runes "resolved"
state_text muted = runes "muted"
state_text escalated = runes "escalated"

unfoldable pub channel_text : ChannelType → Text
channel_text email = runes "email"
channel_text telegram = runes "telegram"
channel_text webhook = runes "webhook"
channel_text slack = runes "slack"
channel_text teams = runes "teams"
channel_text discord = runes "discord"
channel_text ntfy = runes "ntfy"
channel_text pushover = runes "pushover"
channel_text (ChannelType.unknown t) = t

unfoldable pub delivery_state_text : DeliveryState → Text
delivery_state_text pending = runes "pending"
delivery_state_text sending = runes "sending"
delivery_state_text sent = runes "sent"
delivery_state_text failed = runes "failed"
delivery_state_text dead_letter = runes "dead_letter"
delivery_state_text cancelled = runes "cancelled"

unfoldable pub kind_text : DeliveryKind → Text
kind_text DeliveryKind.unset = []
kind_text alert = runes "alert"
kind_text recovery = runes "recovery"

-- an empty value of a filter is no condition
unfoldable pub unset_or : Text → Text → Bool
unfolding is_empty text_eq
unset_or value column = is_empty value || text_eq column value

pub record EventFilter : Type 0 where
  pub event_type : Text
  pub severity : Text
  pub state : Text
  pub source : Text
  pub search : Text

-- `none` in `event_id` is ""
pub record DeliveryFilter : Type 0 where
  pub state : Text
  pub channel : Text
  pub channel_name : Text
  pub event_id : Option ℕ
  pub kind : Text

pub record Page (A : Type 0) : Type 0 where
  pub items : List A
  pub next_cursor : Text

unfoldable pub event_key : Event → Key
event_key e = (e.created_at, e.id)

unfoldable pub attempt_key : DeliveryAttempt → Key
attempt_key a = (a.created_at, a.id)

unfoldable pub passes_deliveries : DeliveryFilter → DeliveryAttempt → Bool
unfolding unset_or delivery_state_text channel_text kind_text
passes_deliveries f a =
    unset_or f.state (delivery_state_text a.state)
    && unset_or f.channel (channel_text a.channel)
    && unset_or f.channel_name a.channel_name
    && elim f.event_id [ none ↦ true | some i ↦ a.event_id == i ]
    && unset_or f.kind (kind_text a.kind)

-- `lower` is the engine's function; `key_bytes` gives the texts of a key, and `bytes_key` reads them.
module _ (lower : Text → Text) (key_bytes : Key → List ℕ × List ℕ)
    (bytes_key : List ℕ × List ℕ → Key) where
  unfoldable pub found_in : Text → Text → Bool
  unfolding is_empty like like_escape
  found_in search message =
      is_empty search
      || like false (lower ((b'%' ∷ like_escape search) ++ (b'%' ∷ []))) (lower message)

  unfoldable pub passes : EventFilter → Event → Bool
  unfolding unset_or event_type_text severity_text state_text found_in
  passes f e =
      unset_or f.event_type (event_type_text e.event_type)
      && unset_or f.severity (severity_text e.severity)
      && unset_or f.state (state_text e.state)
      && unset_or f.source e.source
      && found_in f.search e.message

  -- an empty cursor is none, and `none` is ErrValidation
  unfoldable pub read_cursor : Text → Option (Option Key)
  unfolding is_empty decode_cursor
  read_cursor cursor =
      if is_empty cursor
      then some none
      else elim (decode_cursor cursor) [ none ↦ none | some texts ↦ some (some (bytes_key texts)) ]

  unfoldable pub write_cursor : Option Key → Text
  unfolding encode_cursor
  write_cursor none = []
  write_cursor (some k) = let (created_at, id) = key_bytes k in encode_cursor created_at id

  unfoldable pub to_page : {A : Type 0} → List A × Option Key → Page A
  unfolding write_cursor
  to_page (items, next) = record { items = items; next_cursor = write_cursor next }

  unfoldable pub list_page :
      {A : Type 0} → (A → Key) → (A → Bool) → (Db → List A) → ℕ → Text → M (Page A)
  unfolding clamp_limit read_cursor to_page page_of fetched
  list_page key p rows limit cursor =
      let n = clamp_limit limit in
      elim (read_cursor cursor) [
        | none ↦ raise validation
        | some c ↦
            autocommit (read (λ d. ok (to_page (page_of key n (fetched key p n c (rows d))))))
      ]

  unfoldable pub list_events : EventFilter → ℕ → Text → M (Page Event)
  unfolding list_page event_key passes
  list_events f limit cursor = list_page event_key (passes f) (λ d. d.events) limit cursor

  unfoldable pub list_delivery_attempts : DeliveryFilter → ℕ → Text → M (Page DeliveryAttempt)
  unfolding list_page attempt_key passes_deliveries
  list_delivery_attempts f limit cursor =
      list_page attempt_key (passes_deliveries f) (λ d. d.attempts) limit cursor
