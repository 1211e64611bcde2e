-- ===== src/Store/Claim.antt =====
-- internal/storage/claim.go: ClaimDue.
pub mod Due
pub mod Safety
use alertloop.Base.{
  ℕ, ◌==◌, Bool, not, ◌&&◌, List, select, update, any, take, map, Text, if◌then◌else◌,
}
use alertloop.Domain.Delivery.{DeliveryAttempt, sending}
use alertloop.Store.Session.{M, write, autocommit}
use alertloop.Store.Rows.{order, contains, deliverable}

-- the ids of the sub-SELECT: due, not of a skipped channel, oldest first, at most `limit`
unfoldable pub picked : ℕ → ℕ → List Text → List DeliveryAttempt → List DeliveryAttempt
unfolding deliverable contains select order
picked now limit skip l =
    take limit (order (select (λ c. deliverable now l c && not (contains skip c.channel_name)) l))

unfoldable pub id_in : List DeliveryAttempt → ℕ → Bool
unfolding any
id_in l id = any (λ a. id == a.id) l

unfoldable pub sending_row : ℕ → DeliveryAttempt → DeliveryAttempt
sending_row now a = record a { state = sending; updated_at = now }

abbrev pub claim_limit : ℕ → ℕ
claim_limit limit = if limit == 0 then 10 else limit

unfoldable pub claim_due : ℕ → ℕ → List Text → M (List DeliveryAttempt)
unfolding picked id_in sending_row update select
claim_due now limit skip = autocommit (
    write (λ d.
      let taken = picked now (claim_limit limit) skip d.attempts in
      (
        map (sending_row now) (select (λ a. id_in taken a.id) d.attempts),
        record d { attempts = update (λ a. id_in taken a.id) (sending_row now) d.attempts },
      )))
