-- ===== src/Store/Claim/Safety.antt =====
-- No recovery is claimed ahead of its alert, and no attempt is claimed twice.
use alertloop.Base.{
  ℕ, suc, true, some, List, ◌≡◌, ◌≢◌, sym, ap, ◌∙◌, arith, Has, Has-map, Has-select, Has-update,
  select, Text, subst, update,
}
use alertloop.Domain.Errors.{ok}
use alertloop.Domain.Delivery.{DeliveryAttempt, is_recovery}
use alertloop.Store.Schema.{Db, uniques_hold}
use alertloop.Store.Schema.Keys.{same_row, uniques_hold-Distinct}
use alertloop.Store.Session.{Session, write, autocommit}
use alertloop.Store.Rows.{deliverable, is_sent_in}
use alertloop.Store.Claim.{picked, id_in, sending_row, claim_limit, claim_due}
use alertloop.Store.Claim.Due.{claim_due-ok, IsDue, Origin, claim_due-IsDue}

due_recovery :
    (now : ℕ) (skip : List Text) (l : List DeliveryAttempt) (c a : DeliveryAttempt) (r : ℕ)
    → Origin now skip l c a
    → is_recovery c.kind ≡ true
    → c.recovery_for ≡ some r
    → is_sent_in l r ≡ true
unfolding deliverable sending_row
due_recovery now skip l c a r o k e =
    let kind = ap (λ (x : DeliveryAttempt). x.kind) o.sent_out in
    let link = ap (λ (x : DeliveryAttempt). x.recovery_for) o.sent_out in
    let due = o.row.due in ground arith

-- A claimed recovery that follows an alert finds that alert sent, if the tables met their
-- constraints.
pub recovery_after_alert :
    (now limit : ℕ) (skip : List Text) (s : Session) (rows : List DeliveryAttempt)
    (c : DeliveryAttempt) (r : ℕ)
    → uniques_hold (s.others 0 s.db) ≡ true
    → (claim_due now limit skip s).0 ≡ ok rows
    → Has c rows
    → is_recovery c.kind ≡ true
    → c.recovery_for ≡ some r
    → is_sent_in (s.others 0 s.db).attempts r ≡ true
recovery_after_alert now limit skip s rows c r valid h m k e =
    let (a, o) = claim_due-IsDue now limit skip s rows c valid h m in
    due_recovery now skip (s.others 0 s.db).attempts c a r o k e

-- The next turn finds what this claim left.
pub claim_next :
    (now limit : ℕ) (skip : List Text) (s : Session)
    → (claim_due now limit skip s).1.others ≡ (λ n. s.others (suc n))
unfolding claim_due autocommit write
claim_next now limit skip s = ground arith

claim_valid :
    (now limit : ℕ) (skip : List Text) (s : Session) (rows : List DeliveryAttempt)
    → (claim_due now limit skip s).0 ≡ ok rows
    → uniques_hold (claim_due now limit skip s).1.db ≡ true
unfolding claim_due autocommit write
claim_valid now limit skip s rows h = ground arith

claimed_row_stored :
    (now limit : ℕ) (skip : List Text) (s : Session) (rows : List DeliveryAttempt)
    (c : DeliveryAttempt)
    → (claim_due now limit skip s).0 ≡ ok rows
    → Has c rows
    → Has c (claim_due now limit skip s).1.db.attempts
claimed_row_stored now limit skip s rows c h m =
    let l = (s.others 0 s.db).attempts in
    let taken = picked now (claim_limit limit) skip l in
    let chosen = λ (x : DeliveryAttempt). id_in taken x.id in
    let done = claim_due-ok now limit skip s rows h in
    let m' = subst (λ (r : List DeliveryAttempt). Has c r) done.returned m in
    let (a, k, e) = Has-map (sending_row now) c (select chosen l) m' in
    let (stored, t) = Has-select chosen a l k in
    subst (λ (d : Db). Has c d.attempts) (sym done.stored)
      (subst (λ x. Has x (update chosen (sending_row now) l)) (sym e)
        (Has-update chosen (sending_row now) a l stored t))

due-not_sending :
    (now now' : ℕ) (skip : List Text) (l : List DeliveryAttempt) (a b : DeliveryAttempt)
    → deliverable now l a ≡ true
    → a ≡ sending_row now' b
    → ⊥
unfolding deliverable sending_row
due-not_sending now now' skip l a b due e =
    let state = ap (λ (x : DeliveryAttempt). x.state) e in ground arith

sent_id : (now : ℕ) (c a : DeliveryAttempt) → c ≡ sending_row now a → a.id ≡ c.id
unfolding sending_row
sent_id now c a e = ap (λ (x : DeliveryAttempt). x.id) (sym e)

-- Two claims in a row, with nothing committed between them, share no attempt, if the tables met
-- their constraints.
pub claims_disjoint :
    (now limit : ℕ) (skip : List Text) (now' limit' : ℕ) (skip' : List Text) (s : Session)
    (rows rows' : List DeliveryAttempt) (c c' : DeliveryAttempt)
    → uniques_hold (s.others 0 s.db) ≡ true
    → (claim_due now limit skip s).0 ≡ ok rows
    → s.others 1 (claim_due now limit skip s).1.db ≡ (claim_due now limit skip s).1.db
    → (claim_due now' limit' skip' (claim_due now limit skip s).1).0 ≡ ok rows'
    → Has c rows
    → Has c' rows'
    → c.id ≢ c'.id
claims_disjoint now limit skip now' limit' skip' s rows rows' c c' valid h alone h' m m' same =
    let s1 = (claim_due now limit skip s).1 in
    let found : s1.others 0 s1.db ≡ s1.db =
      ap (λ (o : ℕ → Db → Db). o 0 s1.db) (claim_next now limit skip s) ∙ alone in
    let valid1 = claim_valid now limit skip s rows h in
    let (a', o') = claim_due-IsDue now' limit' skip' s1 rows' c' (rw found valid1) h' m' in
    let due' = subst (λ (d : Db). IsDue now' skip' d.attempts a') found o'.row in
    let (a, o) = claim_due-IsDue now limit skip s rows c valid h m in
    let stored = claimed_row_stored now limit skip s rows c h m in
    let id' : a'.id ≡ c.id = sent_id now' c' a' o'.sent_out ∙ sym same in
    let row =
      same_row a' c s1.db.attempts (uniques_hold-Distinct s1.db valid1) due'.stored stored id' in
    due-not_sending now' now skip' s1.db.attempts a' a due'.due (row ∙ o.sent_out)
