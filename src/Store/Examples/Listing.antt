-- ===== src/Store/Examples/Listing.antt =====
-- A listing of two events in pages of one, and a cursor.
use alertloop.Base.{
  ℕ, zero, suc, ◌<◌, true, List, [], ◌∷◌, length, ◌≡◌, refl, ap, arith, runes, Text,
}
use alertloop.Store.Schema.{uniques_hold}
use alertloop.Store.Session.{Session}
use alertloop.Store.Examples.{quiet, down, empty_db}
use alertloop.Store.Listing.{EventFilter, event_key, passes}
use alertloop.Store.Listing.Pages.{Key}
use alertloop.Store.Listing.Walk.{listed}
use alertloop.Store.Listing.Base64.{all_bytes}
use alertloop.Store.Listing.Cursor.{no_zero}
use alertloop.Store.Listing.Complete.{Readable, collect, events-listed}

bytes : all_bytes (runes "2026-01-02") ≡ true
unfolding all_bytes
bytes = refl

id_bytes : all_bytes (runes "b2c4") ≡ true
unfolding all_bytes
id_bytes = refl

zero_free : no_zero (runes "2026-01-02") ≡ true
unfolding no_zero
zero_free = refl

-- a key in which each number is as many bytes
abbrev ones : ℕ → List ℕ
ones zero = []
ones (suc n) = 1 ∷ ones n

ones-all_bytes : (n : ℕ) → all_bytes (ones n) ≡ true
unfolding all_bytes
ones-all_bytes zero = refl
ones-all_bytes (suc n) = ones-all_bytes n

ones-no_zero : (n : ℕ) → no_zero (ones n) ≡ true
unfolding no_zero
ones-no_zero zero = refl
ones-no_zero (suc n) = ones-no_zero n

length-ones : (n : ℕ) → length (ones n) ≡ n
length-ones zero = refl
length-ones (suc n) = ap suc (length-ones n)

abbrev key_bytes : Key → List ℕ × List ℕ
key_bytes (t, i) = (ones t, ones i)

abbrev bytes_key : List ℕ × List ℕ → Key
bytes_key (s, t) = (length s, length t)

read_back : (k : Key) → bytes_key (key_bytes k) ≡ k
read_back (t, i) = simp (length-ones t, length-ones i)

abbrev as_is : Text → Text
as_is t = t

readable : Readable as_is key_bytes bytes_key
readable = record {
  created = λ k. ones-all_bytes k.0;
  ids = λ k. ones-all_bytes k.1;
  no_zeros = λ k. ones-no_zero k.0;
  read_back = read_back;
}

abbrev two_events : Session
two_events = quiet (record empty_db {
  events =
      record down { dedupe_key = [] }
      ∷ record down { id = 77; created_at = 90; dedupe_key = [] }
      ∷ [];
})

abbrev any_event : EventFilter
any_event = record {
  event_type = runes "incident";
  severity = [];
  state = [];
  source = [];
  search = [];
}

two_hold : uniques_hold two_events.db ≡ true
unfolding uniques_hold
two_hold = refl

fuel_enough :
    length (listed event_key (passes as_is key_bytes bytes_key any_event) two_events.db.events) < 3
unfolding listed passes event_key
fuel_enough = omega arith

events-listed_example :
    collect as_is key_bytes bytes_key 3 event_key
      (passes as_is key_bytes bytes_key any_event)
      (λ d. d.events)
      1
      two_events
      []
    ≡ listed event_key (passes as_is key_bytes bytes_key any_event) two_events.db.events
events-listed_example =
    events-listed as_is key_bytes bytes_key readable two_events any_event 1 3 refl refl two_hold
      fuel_enough

two_listed :
    length (listed event_key (passes as_is key_bytes bytes_key any_event) two_events.db.events) ≡ 2
unfolding listed passes event_key
two_listed = refl
