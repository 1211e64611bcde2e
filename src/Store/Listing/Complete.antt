-- ===== src/Store/Listing/Complete.antt =====
-- internal/storage/sql_store.go: the listings of events and attempts, on tables that meet their
-- constraints.
use alertloop.Base.{
  ℕ, ◌≤◌, ◌<◌, Bool, true, false, none, List, [], ◌∷◌, Text, length, any, ◌≢◌, ◌++◌, Option, some,
  zero, is_empty, ◌∙◌, ap, ◌≡◌, refl, arith, suc, if◌then◌else◌,
}
use alertloop.Domain.Event.{Event}
use alertloop.Domain.Delivery.{DeliveryAttempt}
use alertloop.Store.Schema.{Db, events_clash, attempts_clash, no_clash, uniques_hold}
use alertloop.Store.Listing.{
  EventFilter, DeliveryFilter, clamp_limit, event_key, attempt_key, passes, passes_deliveries,
  list_page, read_cursor, write_cursor, to_page,
}
use alertloop.Domain.Errors.{ok, err}
use alertloop.Store.Session.{Session, read, autocommit, statement}
use alertloop.Store.Listing.Base64.{encode, split_octets, characters, all_bytes}
use alertloop.Store.Listing.Cursor.{encode_cursor, no_zero, decode_cursor-encode_cursor}
use alertloop.Store.Listing.Pages.{Key, follow, page_of, fetched, with_rest}
use alertloop.Store.Listing.Order.{same_key, has_key, keys_differ}
use alertloop.Store.Listing.Walk.{listed, follow-listed}

any-weaker :
    {A : Type 0} (p q : A → Bool) (l : List A)
    → ((x : A) → p x ≡ true → q x ≡ true)
    → any q l ≡ false
    → any p l ≡ false
unfolding any
any-weaker p q [] w h = refl
any-weaker p q (x ∷ l) w h = ground (arith, h, w x, any-weaker p q l w)

no_clash-keys_differ :
    {A : Type 0} (clash : A → A → Bool) (key : A → Key) (l : List A)
    → ((x y : A) → has_key key (key x) y ≡ true → clash x y ≡ true)
    → no_clash clash l ≡ true
    → keys_differ key l ≡ true
unfolding no_clash keys_differ
no_clash-keys_differ clash key [] w h = refl
no_clash-keys_differ clash key (x ∷ l) w h = ground (
  arith,
  h,
  any-weaker (has_key key (key x)) (clash x) l (w x),
  no_clash-keys_differ clash key l w,
)

same_event : (x y : Event) → has_key event_key (event_key x) y ≡ true → events_clash x y ≡ true
unfolding has_key same_key event_key events_clash
same_event x y h = ground arith

same_attempt :
    (x y : DeliveryAttempt)
    → has_key attempt_key (attempt_key x) y ≡ true
    → attempts_clash x y ≡ true
unfolding has_key same_key attempt_key attempts_clash
same_attempt x y h = ground arith

events_differ : (d : Db) → uniques_hold d ≡ true → keys_differ event_key d.events ≡ true
unfolding uniques_hold
events_differ d h =
    no_clash-keys_differ events_clash event_key d.events same_event (ground (arith, h))

attempts_differ : (d : Db) → uniques_hold d ≡ true → keys_differ attempt_key d.attempts ≡ true
unfolding uniques_hold
attempts_differ d h =
    no_clash-keys_differ attempts_clash attempt_key d.attempts same_attempt (ground (arith, h))

clamp_limit-pos : (limit : ℕ) → 1 ≤ clamp_limit limit
unfolding clamp_limit
clamp_limit-pos limit = ground arith

filled : (l : List ℕ) → l ≢ [] → is_empty (encode l) ≡ false
unfolding encode split_octets characters is_empty
filled [] h = elim (h refl) [ ]
filled (a ∷ []) h = refl
filled (a ∷ b ∷ []) h = refl
filled (a ∷ b ∷ c ∷ l) h = refl

ends_in : (s t : List ℕ) → s ++ (0 ∷ t) ≢ []
ends_in [] t e = cc
ends_in (c ∷ s) t e = cc

module _ (lower : Text → Text) (key_bytes : Key → List ℕ × List ℕ)
    (bytes_key : List ℕ × List ℕ → Key) where
  -- the texts of a key are bytes, with no zero in the time, and the key is read back from them
  pub record Readable : Type 0 where
    pub created : (k : Key) → all_bytes (key_bytes k).0 ≡ true
    pub ids : (k : Key) → all_bytes (key_bytes k).1 ≡ true
    pub no_zeros : (k : Key) → no_zero (key_bytes k).0 ≡ true
    pub read_back : (k : Key) → bytes_key (key_bytes k) ≡ k

  -- what the cursors of the store's answers lead through, in a session that stays as it is
  unfoldable pub collect :
      {A : Type 0} → ℕ → (A → Key) → (A → Bool) → (Db → List A) → ℕ → Session → Text → List A
  unfolding list_page is_empty
  collect zero key p rows limit s cursor = []
  collect (suc n) key p rows limit s cursor =
      elim (list_page lower key_bytes bytes_key key p rows limit cursor s).0 [
        | err e ↦ []
        | ok page ↦
            if is_empty page.next_cursor
            then page.items
            else page.items ++ collect n key p rows limit s page.next_cursor
      ]

  module _ (readable : Readable) where
    cursor-filled : (k : Key) → is_empty (write_cursor lower key_bytes bytes_key (some k)) ≡ false
    unfolding write_cursor encode_cursor
    cursor-filled k = filled _ (ends_in (key_bytes k).0 (key_bytes k).1)

    cursor-read :
        (c : Option Key)
        → read_cursor lower key_bytes bytes_key (write_cursor lower key_bytes bytes_key c) ≡ some c
    unfolding read_cursor write_cursor is_empty
    cursor-read none = refl
    cursor-read (some k) =
        rw
          (
            cursor-filled k,
            decode_cursor-encode_cursor (key_bytes k).0 (key_bytes k).1 (readable.created k)
                (readable.ids k) (readable.no_zeros k),
            readable.read_back k,
            read_cursor,
          )
          refl

    page-ok :
        {A : Type 0} (key : A → Key) (p : A → Bool) (rows : Db → List A) (limit : ℕ) (s : Session)
        (c : Option Key)
        → s.faults 0 ≡ false
        → s.others 0 s.db ≡ s.db
        → (list_page lower key_bytes bytes_key key p rows limit
            (write_cursor lower key_bytes bytes_key c)
            s).0
          ≡ ok (
              to_page lower key_bytes bytes_key
                (page_of key (clamp_limit limit) (fetched key p (clamp_limit limit) c (rows s.db))))
    unfolding list_page autocommit read statement
    page-ok key p rows limit s c calm alone = rw (cursor-read c, list_page, calm, alone) refl

    rest-follow :
        {A : Type 0} (key : A → Key) (q : List A × Option Key) (more : Text → List A)
        (next : Key → List A)
        → ((k : Key) → more (write_cursor lower key_bytes bytes_key (some k)) ≡ next k)
        → (if is_empty (to_page lower key_bytes bytes_key q).next_cursor
            then (to_page lower key_bytes bytes_key q).items
            else (to_page lower key_bytes bytes_key q).items
              ++ more (to_page lower key_bytes bytes_key q).next_cursor)
          ≡ with_rest key q next
    unfolding to_page with_rest is_empty
    rest-follow key (items, none) more next same = refl
    rest-follow key (items, some k) more next same =
        rw (cursor-filled k) (ap (λ r. items ++ r) (same k))

    collect-follow :
        {A : Type 0} (fuel : ℕ) (key : A → Key) (p : A → Bool) (rows : Db → List A) (limit : ℕ)
        (s : Session) (c : Option Key)
        → s.faults 0 ≡ false
        → s.others 0 s.db ≡ s.db
        → collect fuel key p rows limit s (write_cursor lower key_bytes bytes_key c)
          ≡ follow key fuel p (clamp_limit limit) c (rows s.db)
    unfolding collect follow
    collect-follow zero key p rows limit s c calm alone = refl
    collect-follow (suc n) key p rows limit s c calm alone =
        rw (page-ok key p rows limit s c calm alone, collect)
          (rest-follow key
            (page_of key (clamp_limit limit) (fetched key p (clamp_limit limit) c (rows s.db)))
            (collect n key p rows limit s)
            (λ k. follow key n p (clamp_limit limit) (some k) (rows s.db))
            (λ k. collect-follow n key p rows limit s (some k) calm alone))

    -- In a session in which no statement fails and nobody else writes, ListEvents and the cursors
    -- that it answers lead through every event that passes the filter, each once and newest first,
    -- if the tables meet their constraints, the texts of a key have the bytes of a cursor and are
    -- read back, and as many pages are read as there are such events, and one more.
    pub events-listed :
        (s : Session) (f : EventFilter) (limit fuel : ℕ)
        → s.faults 0 ≡ false
        → s.others 0 s.db ≡ s.db
        → uniques_hold s.db ≡ true
        → length (listed event_key (passes lower key_bytes bytes_key f) s.db.events) < fuel
        → collect fuel event_key (passes lower key_bytes bytes_key f) (λ d. d.events) limit s []
          ≡ listed event_key (passes lower key_bytes bytes_key f) s.db.events
    unfolding write_cursor
    events-listed s f limit fuel calm alone h enough =
        collect-follow fuel event_key (passes lower key_bytes bytes_key f) (λ d. d.events) limit s
          none calm alone
        ∙ follow-listed event_key (clamp_limit limit) fuel (passes lower key_bytes bytes_key f)
            s.db.events (clamp_limit-pos limit) (events_differ s.db h) enough

    pub attempts-listed :
        (s : Session) (f : DeliveryFilter) (limit fuel : ℕ)
        → s.faults 0 ≡ false
        → s.others 0 s.db ≡ s.db
        → uniques_hold s.db ≡ true
        → length (listed attempt_key (passes_deliveries f) s.db.attempts) < fuel
        → collect fuel attempt_key (passes_deliveries f) (λ d. d.attempts) limit s []
          ≡ listed attempt_key (passes_deliveries f) s.db.attempts
    unfolding write_cursor
    attempts-listed s f limit fuel calm alone h enough =
        collect-follow fuel attempt_key (passes_deliveries f) (λ d. d.attempts) limit s none calm
          alone
        ∙ follow-listed attempt_key (clamp_limit limit) fuel (passes_deliveries f) s.db.attempts
            (clamp_limit-pos limit) (attempts_differ s.db h) enough
