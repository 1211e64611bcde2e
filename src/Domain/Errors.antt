-- ===== src/Domain/Errors.antt =====
-- internal/domain/errors.go, with storage.ErrStateChanged and the two failures of a database
-- statement that the store tells apart.
pub data Error : Type 0 where
  not_found invalid_transition invalid_action validation not_replayable source_not_allowed : Error
  state_changed : Error
  unique_violation database : Error

-- A Go function's (value, error).
pub data Result {ℓ} (A : Type ℓ) : Type ℓ where
  ok : A → Result A
  err : Error → Result A
