-- ===== src/Domain/Delivery.antt =====
-- internal/domain/delivery.go: delivery attempts. A link to another attempt is that attempt's id:
-- the channel and state that an AttemptLink also carries are read from the linked row for the API.
use alertloop.Base.{ℕ, Text, Bool, true, false, Option, is_some}

pub data ChannelType : Type 0 where
  email telegram webhook slack teams discord ntfy pushover : ChannelType
  unknown : Text → ChannelType

unfoldable pub valid_channel_type : ChannelType → Bool
valid_channel_type (ChannelType.unknown _) = false
valid_channel_type _ = true

pub data DeliveryState : Type 0 where
  pending sending sent failed dead_letter cancelled : DeliveryState

pub data DeliveryKind : Type 0 where
  unset alert recovery : DeliveryKind

unfoldable pub or_alert : DeliveryKind → DeliveryKind
or_alert DeliveryKind.unset = alert
or_alert k = k

-- `==` on the constants, as the code and its queries test them
unfoldable pub is_pending : DeliveryState → Bool
is_pending pending = true
is_pending _ = false

unfoldable pub is_sending : DeliveryState → Bool
is_sending sending = true
is_sending _ = false

unfoldable pub is_sent : DeliveryState → Bool
is_sent sent = true
is_sent _ = false

unfoldable pub is_failed : DeliveryState → Bool
is_failed failed = true
is_failed _ = false

unfoldable pub is_dead_letter : DeliveryState → Bool
is_dead_letter dead_letter = true
is_dead_letter _ = false

unfoldable pub is_cancelled : DeliveryState → Bool
is_cancelled cancelled = true
is_cancelled _ = false

unfoldable pub is_alert : DeliveryKind → Bool
is_alert alert = true
is_alert _ = false

unfoldable pub is_recovery : DeliveryKind → Bool
is_recovery recovery = true
is_recovery _ = false

pub record DeliveryAttempt : Type 0 where
  pub id : ℕ
  pub event_id : ℕ
  pub channel : ChannelType
  pub channel_name : Text
  pub kind : DeliveryKind
  pub state : DeliveryState
  pub attempts : ℕ
  pub max_attempts : ℕ
  pub next_retry_at : Option ℕ
  pub last_error : Text
  pub created_at : ℕ
  pub updated_at : ℕ
  pub fallback_of : Option ℕ
  pub recovery_for : Option ℕ

unfoldable pub is_fallback : DeliveryAttempt → Bool
is_fallback d = is_some d.fallback_of

pub record ChannelTarget : Type 0 where
  pub channel : ChannelType
  pub name : Text

abbrev pub default_max_attempts : ℕ
default_max_attempts = 5
