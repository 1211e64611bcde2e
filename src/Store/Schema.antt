-- ===== src/Store/Schema.antt =====
-- The two tables of internal/storage/migrations and the constraints that the engine enforces on
-- every write: primary keys, the partial unique index on open dedupe keys, the unique index on
-- fallback_of, and the foreign key of attempts.
pub mod Keys
use alertloop.Base.{
  ℕ, ◌==◌, Bool, true, false, not, ◌&&◌, ◌||◌, Option, some, List, [], ◌∷◌, any, is_empty, text_eq,
}
use alertloop.Domain.Event.{Event, is_resolved}
use alertloop.Domain.Delivery.{DeliveryAttempt}

pub record Db : Type 0 where
  pub events : List Event
  pub attempts : List DeliveryAttempt

-- Two rows that the primary key or the index idx_events_dedupe_open forbids side by side.
unfoldable pub events_clash : Event → Event → Bool
unfolding is_resolved is_empty text_eq
events_clash a b =
    a.id == b.id
    || (not (is_empty a.dedupe_key)
        && text_eq a.dedupe_key b.dedupe_key
        && not (is_resolved a.state)
        && not (is_resolved b.state))

same_link : Option ℕ → Option ℕ → Bool
same_link (some a) (some b) = a == b
same_link _ _ = false

-- Two rows that the primary key or the index idx_delivery_fallback_of forbids side by side.
unfoldable pub attempts_clash : DeliveryAttempt → DeliveryAttempt → Bool
unfolding same_link
attempts_clash a b = a.id == b.id || same_link a.fallback_of b.fallback_of

unfoldable pub no_clash {ℓ} : {A : Type ℓ} → (A → A → Bool) → List A → Bool
unfolding any
no_clash clash [] = true
no_clash clash (x ∷ xs) = not (any (clash x) xs) && no_clash clash xs

unfoldable pub uniques_hold : Db → Bool
unfolding no_clash events_clash attempts_clash
uniques_hold d = no_clash events_clash d.events && no_clash attempts_clash d.attempts

unfoldable pub has_event : Db → ℕ → Bool
unfolding any
has_event d id = any (λ e. e.id == id) d.events

all_have_event : Db → List DeliveryAttempt → Bool
unfolding has_event
all_have_event d [] = true
all_have_event d (a ∷ as') = has_event d a.event_id && all_have_event d as'

unfoldable pub foreign_keys_hold : Db → Bool
unfolding all_have_event
foreign_keys_hold d = all_have_event d d.attempts
