-- ===== src/Store/Claim/Due.antt =====
-- What ClaimDue takes: rows that are due, of channels that are not skipped, and not too many.
use alertloop.Base.{
  count-none, ℕ, ◌≤◌, ◌==◌, true, false, not, ◌&&◌, List, [], ◌∷◌, ◌≡◌, sym, arith, any, Has,
  Has-any, Has-take, Has-select, Has-map, length-take, length-map, count, count-or-le, length, map,
  select, update, Text, length-select, ◌⊎◌, inl, inr, subst, ==_iff, Option, none, some,
  Option-cases,
}
use alertloop.Domain.Errors.{ok}
use alertloop.Domain.Delivery.{DeliveryAttempt}
use alertloop.Store.Schema.{Db, uniques_hold}
use alertloop.Store.Schema.Keys.{uniques_hold-Distinct, Distinct, same_row, count-id-le}
use alertloop.Store.Session.{Session, write, autocommit}
use alertloop.Store.Rows.{deliverable, contains, order, insert_ordered}
use alertloop.Store.Claim.{picked, id_in, sending_row, claim_limit, claim_due}

Has-insert_ordered :
    (a x : DeliveryAttempt) (l : List DeliveryAttempt)
    → Has x (insert_ordered a l)
    → (x ≡ a) ⊎ Has x l
unfolding insert_ordered
Has-insert_ordered a x [] h = h
Has-insert_ordered a x (b ∷ l) h = ground (arith, Has-insert_ordered a x l)

Has-order : (x : DeliveryAttempt) (l : List DeliveryAttempt) → Has x (order l) → Has x l
unfolding order
Has-order x [] h = h
Has-order x (a ∷ l) h = elim (Has-insert_ordered a x (order l) h) [
  | inl e ↦ inl e
  | inr m ↦ inr (Has-order x l m)
]

-- A retry is not before its time.
abbrev pub NotEarly : ℕ → Option ℕ → Type 0
NotEarly now none = Unit
NotEarly now (some at) = at ≤ now

deliverable-NotEarly :
    (now : ℕ) (l : List DeliveryAttempt) (a : DeliveryAttempt)
    → deliverable now l a ≡ true
    → NotEarly now a.next_retry_at
unfolding deliverable
deliverable-NotEarly now l a h = elim (Option-cases a.next_retry_at) [
  | inl e ↦ rw e tt
  | inr (at, e) ↦ rw e (ground (arith, rw (e, deliverable) at h))
]

-- A row that may be claimed.
pub record IsDue (now : ℕ) (skip : List Text) (l : List DeliveryAttempt) (a : DeliveryAttempt)
    : Type 0 where
  pub stored : Has a l
  pub due : deliverable now l a ≡ true
  pub not_early : NotEarly now a.next_retry_at
  pub not_skipped : contains skip a.channel_name ≡ false

pub picked-IsDue :
    (now limit : ℕ) (skip : List Text) (l : List DeliveryAttempt) (a : DeliveryAttempt)
    → Has a (picked now limit skip l)
    → IsDue now skip l a
unfolding picked
picked-IsDue now limit skip l a h =
    let eligible =
      λ (c : DeliveryAttempt). deliverable now l c && not (contains skip c.channel_name) in
    let (m, t) =
      Has-select eligible a l
        (Has-order a (select eligible l) (Has-take limit a (order (select eligible l)) h)) in
    let ready : deliverable now l a ≡ true = ground arith in
    record {
      stored = m;
      due = ready;
      not_early = deliverable-NotEarly now l a ready;
      not_skipped = ground arith;
    }

length-picked :
    (now limit : ℕ) (skip : List Text) (l : List DeliveryAttempt)
    → length (picked now limit skip l) ≤ limit
unfolding picked
length-picked now limit skip l =
    length-take limit
      (order (select (λ c. deliverable now l c && not (contains skip c.channel_name)) l))

id_in-picked :
    (taken : List DeliveryAttempt) (n : ℕ)
    → id_in taken n ≡ true
    → (b : DeliveryAttempt) × Has b taken × (b.id ≡ n)
unfolding id_in
id_in-picked taken n h =
    let (b, m, e) = Has-any (λ a. n == a.id) taken h in (b, m, sym ((==_iff n b.id).0 e))

count-id_in :
    (taken l : List DeliveryAttempt) → Distinct l → count (λ a. id_in taken a.id) l ≤ length taken
unfolding id_in any
count-id_in [] l d = omega (arith, count-none l)
count-id_in (b ∷ t) l d = omega (
  arith,
  count-or-le (λ a. a.id == b.id) (λ a. id_in t a.id) l,
  count-id-le b.id l d,
  count-id_in t l d,
)

-- A claim that succeeds.
pub record Claimed (now limit : ℕ) (skip : List Text) (before : Db) (rows : List DeliveryAttempt)
    (after : Db) : Type 0 where
  pub returned :
      rows
      ≡ map (sending_row now) (
          select
            (λ a. id_in (picked now (claim_limit limit) skip before.attempts) a.id)
            before.attempts)
  pub stored : after ≡ record before {
    attempts =
        update
          (λ a. id_in (picked now (claim_limit limit) skip before.attempts) a.id)
          (sending_row now)
          before.attempts;
  }

pub claim_due-ok :
    (now limit : ℕ) (skip : List Text) (s : Session) (rows : List DeliveryAttempt)
    → (claim_due now limit skip s).0 ≡ ok rows
    → Claimed now limit skip (s.others 0 s.db) rows (claim_due now limit skip s).1.db
unfolding claim_due autocommit write
claim_due-ok now limit skip s rows h = record { returned = ground arith; stored = ground arith }

-- The row as it stood before it was claimed.
pub record Origin (now : ℕ) (skip : List Text) (l : List DeliveryAttempt) (c a : DeliveryAttempt)
    : Type 0 where
  pub row : IsDue now skip l a
  pub sent_out : c ≡ sending_row now a

-- Each attempt that a claim returns is a stored one that was due and on no skipped channel, now
-- `sending`, with its time of update set and nothing else changed, if the tables met their
-- constraints.
pub claim_due-IsDue :
    (now limit : ℕ) (skip : List Text) (s : Session) (rows : List DeliveryAttempt)
    (c : DeliveryAttempt)
    → uniques_hold (s.others 0 s.db) ≡ true
    → (claim_due now limit skip s).0 ≡ ok rows
    → Has c rows
    → (a : DeliveryAttempt) × Origin now skip (s.others 0 s.db).attempts c a
claim_due-IsDue now limit skip s rows c valid h m =
    let l = (s.others 0 s.db).attempts in
    let taken = picked now (claim_limit limit) skip l in
    let m' =
      subst (λ (r : List DeliveryAttempt). Has c r) (claim_due-ok now limit skip s rows h).returned
        m in
    let (a, k, e) = Has-map (sending_row now) c (select (λ x. id_in taken x.id) l) m' in
    let (stored, chosen) = Has-select (λ x. id_in taken x.id) a l k in
    let (b, in_taken, same_id) = id_in-picked taken a.id chosen in
    let due = picked-IsDue now (claim_limit limit) skip l b in_taken in
    let same =
      same_row b a l (uniques_hold-Distinct (s.others 0 s.db) valid) due.stored stored same_id in
    (a, record { row = subst (IsDue now skip l) same due; sent_out = e })

-- A claim returns at most the number of attempts that it was asked for, or 10 when asked for 0, if
-- the tables met their constraints.
pub length-claim_due :
    (now limit : ℕ) (skip : List Text) (s : Session) (rows : List DeliveryAttempt)
    → uniques_hold (s.others 0 s.db) ≡ true
    → (claim_due now limit skip s).0 ≡ ok rows
    → length rows ≤ claim_limit limit
length-claim_due now limit skip s rows valid h =
    let l = (s.others 0 s.db).attempts in
    let taken = picked now (claim_limit limit) skip l in
    let chosen = λ (x : DeliveryAttempt). id_in taken x.id in
    rw (claim_due-ok now limit skip s rows h).returned (
      omega (
        arith,
        length-map (sending_row now) (select chosen l),
        length-select chosen l,
        count-id_in taken l (uniques_hold-Distinct (s.others 0 s.db) valid),
        length-picked now (claim_limit limit) skip l,
      ))
