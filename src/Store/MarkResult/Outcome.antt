-- ===== src/Store/MarkResult/Outcome.antt =====
-- What MarkResult stores, and when it stores nothing.
use alertloop.Domain.Truncate.{truncate_runes, max_last_error_runes}
use alertloop.Store.Rows.{muted_alert}
use alertloop.Store.Session.Laws.{
  >>=-ok, transaction-ok, transaction-err, same_result, Result-cases, ok-injective,
}
use alertloop.Base.{
  ℕ, none, ◌≡◌, ◌≢◌, arith, find, update-none, Option, some, ◌==◌, ap, sym, ◌∙◌, inl, inr,
  Option-cases, true, false, Bool-cases, suc, refl, ap₂, update, subst, if◌then◌else◌, Has,
  Has-update, find-Has,
}
use alertloop.Domain.Errors.{ok}
use alertloop.Domain.Delivery.{DeliveryAttempt, DeliveryState, cancelled, is_sent, is_dead_letter}
use alertloop.Store.Schema.{Db}
use alertloop.Store.Session.{
  M, Session, transaction, turn, tick, now, pure, autocommit, ◌>>=◌, write,
}
use alertloop.Store.MarkResult.{
  held, result_row, update_result, mark_result, result_time, as_stored, stored_state, after_update,
  record_result,
}

-- An update of a row that is not held fails, and leaves the table as it was.
update_result_missing :
    (at : ℕ) (d : DeliveryAttempt) (s : Session)
    → find (held d.id) s.db.attempts ≡ none
    → ((update_result at d s).1.db ≡ s.db) × ((x : DeliveryState) → (update_result at d s).0 ≢ ok x)
unfolding update_result ◌>>=◌ write
update_result_missing at d s h = (
  ground (arith, update-none (held d.id) (result_row at s.db d) s.db.attempts),
  λ x e. ground arith,
)

-- the same in a transaction, whatever would follow
missing_in_transaction :
    {B : Type 0} (at : ℕ) (d : DeliveryAttempt) (k : DeliveryState → M B) (s : Session)
    → find (held d.id) (s.others 0 s.db).attempts ≡ none
    → ((transaction (update_result at d >>= k) s).1.db ≡ s.others 0 s.db)
      × ((x : B) → (transaction (update_result at d >>= k) s).0 ≢ ok x)
missing_in_transaction {B} at d k s h =
    let m = transaction (update_result at d >>= k) in
    let fails = λ (x : B) (e : (m s).0 ≡ ok x).
      let (body, _) = transaction-ok (update_result at d >>= k) s x e in
      let (a, first, p) = >>=-ok (update_result at d) k (tick (turn s)) x body in
      (update_result_missing at d (tick (turn s)) h).1 a first in
    (
      elim (Result-cases (m s).0) [
        | inl (x, e) ↦ absurd (fails x e)
        | inr (x, e) ↦ transaction-err (update_result at d >>= k) s x e
      ],
      fails,
    )

-- The time that a result carries, or that of the clock.
abbrev pub time_of : DeliveryAttempt → Session → ℕ
time_of d s = if d.updated_at == 0 then s.clock 0 else d.updated_at

-- Reading the clock, or not, changes no table.
record_at :
    {B : Type 0} (d : DeliveryAttempt) (k : ℕ → M B) (s : Session)
    → (s' : Session) × ((result_time d >>= k) s ≡ k (time_of d s) s')
      × (s'.db ≡ s.db)
      × (s'.others ≡ s.others)
unfolding result_time ◌>>=◌ now
record_at d k s = elim (Bool-cases (d.updated_at == 0)) [
  | inl unset ↦ (record s { clock = λ n. s.clock (suc n) }, rw unset refl, refl, refl)
  | inr given ↦ (s, rw given refl, refl, refl)
]

-- A session and the result of a call in it that fails and changes nothing.
abbrev pub Refused : {B : Type 0} → M B → Session → Type 0
Refused {B} m s = ((m s).1.db ≡ s.others 0 s.db) × ((x : B) → (m s).0 ≢ ok x)

record_result-Refused :
    (d : DeliveryAttempt) (fallback : Option DeliveryAttempt) (at : ℕ) (s : Session)
    → find (held d.id) (s.others 0 s.db).attempts ≡ none
    → Refused (record_result d fallback at) s
unfolding record_result
record_result-Refused d (some f) at s h = missing_in_transaction at d (after_update d f) s h
record_result-Refused d none at s h =
    let (same, fails) = update_result_missing at d (turn s) h in
    (
      unfold ◌>>=◌ autocommit in ground (arith, same, Result-cases (update_result at d (turn s)).0),
      λ x e. unfold autocommit in fails _ (>>=-ok (autocommit (update_result at d)) _ s x e).1,
    )

-- A result for an attempt whose row is no longer `sending` is an error, and changes nothing.
pub late_result_discarded :
    (d : DeliveryAttempt) (fallback : Option DeliveryAttempt) (s : Session)
    → find (held d.id) (s.others 0 s.db).attempts ≡ none
    → Refused (mark_result d fallback) s
unfolding mark_result
late_result_discarded d fallback s h =
    let (s', e, db, others) = record_at d (record_result d fallback) s in
    let same : s'.others 0 s'.db ≡ s.others 0 s.db = ap₂ (λ o t. o 0 t) others db in
    let r = record_result-Refused d fallback (time_of d s) s' (rw same h) in
    (ap (λ p. p.1.db) e ∙ r.0 ∙ same, λ x p. r.1 x (same_result e p))

-- A row that is updated, as it is found.
update_result-ok :
    (at : ℕ) (d : DeliveryAttempt) (s : Session) (state : DeliveryState)
    → (update_result at d s).0 ≡ ok state
    → (row : DeliveryAttempt) × (find (held d.id) s.db.attempts ≡ some row)
      × (state ≡ stored_state s.db d row)
      × ((update_result at d s).1 ≡ record (tick s) {
        db = record s.db { attempts = update (held d.id) (result_row at s.db d) s.db.attempts };
      })
unfolding update_result ◌>>=◌ write
update_result-ok at d s state h = elim (Option-cases (find (held d.id) s.db.attempts)) [
  | inl missing ↦ absurd ((update_result_missing at d s missing).1 state h)
  | inr (row, found) ↦ (row, found, ground arith, ground arith)
]

-- The table with the one row changed.
abbrev pub marked : ℕ → DeliveryAttempt → Db → Db
marked at d db = record db { attempts = update (held d.id) (result_row at db d) db.attempts }

after_other :
    (d f : DeliveryAttempt) (state : DeliveryState) (s : Session)
    → is_dead_letter state ≡ false
    → after_update d f state s ≡ (ok (as_stored d state, some f), s)
unfolding after_update pure
after_other d f state s h = rw h

muted-stored_state :
    (db : Db) (d row : DeliveryAttempt)
    → muted_alert db row ≡ true
    → is_sent d.state ≡ false
    → stored_state db d row ≡ cancelled
unfolding stored_state
muted-stored_state db d row m h = ground arith

cancelled_lives : is_dead_letter cancelled ≡ false
unfolding is_dead_letter
cancelled_lives = refl

cancelled-as_stored :
    (d : DeliveryAttempt)
    → ((as_stored d cancelled).state ≡ cancelled) × ((as_stored d cancelled).next_retry_at ≡ none)
unfolding as_stored
cancelled-as_stored d = (refl, refl)

record_muted :
    (d : DeliveryAttempt) (fallback : Option DeliveryAttempt) (at : ℕ) (s : Session)
    (row : DeliveryAttempt) (r : DeliveryAttempt × Option DeliveryAttempt)
    → find (held d.id) (s.others 0 s.db).attempts ≡ some row
    → muted_alert (s.others 0 s.db) row ≡ true
    → is_sent d.state ≡ false
    → (record_result d fallback at s).0 ≡ ok r
    → (r.0 ≡ as_stored d cancelled)
      × ((record_result d fallback at s).1.db ≡ marked at d (s.others 0 s.db))
unfolding record_result autocommit pure
record_muted d none at s row r found m h k =
    let keep = λ (state : DeliveryState). pure (as_stored d state, none) in
    let t = turn s in
    let (state, first, p) = >>=-ok (autocommit (update_result at d)) keep s r k in
    let (row', found', is_state, db) = update_result-ok at d t state first in
    let same_row : row ≡ row' = cc (found, found') in
    let is_cancelled : state ≡ cancelled =
      is_state
      ∙ muted-stored_state t.db d row' (subst (λ x. muted_alert t.db x ≡ true) same_row m) h in
    (
      ap (λ x. x.0) (sym (ok-injective (same_result p k))) ∙ ap (as_stored d) is_cancelled,
      ap (λ x. x.1.db) p ∙ ap (λ (x : Session). x.db) db,
    )
record_muted d (some f) at s row r found m h k =
    let (body, stored) = transaction-ok (update_result at d >>= after_update d f) s r k in
    let t = tick (turn s) in
    let (state, first, p) = >>=-ok (update_result at d) (after_update d f) t r body in
    let (row', found', is_state, db) = update_result-ok at d t state first in
    let same_row : row ≡ row' = cc (found, found') in
    let is_cancelled : state ≡ cancelled =
      is_state
      ∙ muted-stored_state t.db d row' (subst (λ x. muted_alert t.db x ≡ true) same_row m) h in
    let path =
      p ∙ after_other d f state (update_result at d t).1 (rw is_cancelled cancelled_lives) in
    (
      ap (λ x. x.0) (sym (ok-injective (same_result path body))) ∙ ap (as_stored d) is_cancelled,
      stored ∙ ap (λ x. x.1.db) path ∙ ap (λ (x : Session). x.db) db,
    )

-- The row of an attempt taken back for a mute: no retry, and the count and the error of the send.
abbrev pub taken_back : ℕ → DeliveryAttempt → DeliveryAttempt → DeliveryAttempt
taken_back at d row = record row {
  state = cancelled;
  next_retry_at = none;
  attempts = d.attempts;
  last_error = truncate_runes d.last_error max_last_error_runes;
  updated_at = at;
}

muted-result_row :
    (at : ℕ) (db : Db) (d row : DeliveryAttempt)
    → muted_alert db row ≡ true
    → is_sent d.state ≡ false
    → result_row at db d row ≡ taken_back at d row
unfolding result_row stored_state
muted-result_row at db d row m h = rw (h, m) refl

-- A result that is stored for an alert whose incident is muted, and that was not sent, is stored
-- as `cancelled` with no retry, at the time that it carries or else that of the clock, and only
-- the row of the attempt changes: no fallback is queued.
pub muted_result_cancelled :
    (d : DeliveryAttempt) (fallback : Option DeliveryAttempt) (s : Session) (row : DeliveryAttempt)
    (r : DeliveryAttempt × Option DeliveryAttempt)
    → find (held d.id) (s.others 0 s.db).attempts ≡ some row
    → muted_alert (s.others 0 s.db) row ≡ true
    → is_sent d.state ≡ false
    → (mark_result d fallback s).0 ≡ ok r
    → (r.0.state ≡ cancelled)
      × (r.0.next_retry_at ≡ none)
      × Has (taken_back (time_of d s) d row) (mark_result d fallback s).1.db.attempts
      × ((mark_result d fallback s).1.db ≡ marked (time_of d s) d (s.others 0 s.db))
unfolding mark_result
muted_result_cancelled d fallback s row r found m h k =
    let at = time_of d s in
    let (s', e, db, others) = record_at d (record_result d fallback) s in
    let same : s'.others 0 s'.db ≡ s.others 0 s.db = ap₂ (λ o t. o 0 t) others db in
    let (is, stored) =
      record_muted d fallback at s' row r (rw same found) (rw same m) h (same_result e k) in
    let after = ap (λ p. p.1.db) e ∙ stored ∙ ap (marked at d) same in
    let before = s.others 0 s.db in
    let (has, is_held) = find-Has (held d.id) before.attempts row found in
    (
      ap (λ (x : DeliveryAttempt). x.state) is ∙ (cancelled-as_stored d).0,
      ap (λ (x : DeliveryAttempt). x.next_retry_at) is ∙ (cancelled-as_stored d).1,
      subst (λ (t : Db). Has (taken_back at d row) t.attempts) (sym after)
          (subst (λ a. Has a (marked at d before).attempts) (muted-result_row at before d row m h)
            (Has-update (held d.id) (result_row at before d) row before.attempts has is_held)),
      after,
    )
