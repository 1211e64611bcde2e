-- ===== src/Service/Input/Accepted.antt =====
-- What an input that passes validation is known to carry.
use alertloop.Base.{
  ℕ, ◌≤◌, Bool, true, false, ◌≡◌, ◌⊎◌, arith, Text, is_empty, inl, inr, Bool-cases,
}
use alertloop.Domain.Errors.{ok}
use alertloop.Domain.Event.{valid_event_type}
use alertloop.Domain.Severity.{valid_severity}
use alertloop.Strings.{trim_space}
use alertloop.Service.Input.{
  EventInput, max_payload_bytes, is_firing, is_resolving, validate_report, validate_input,
}

module _ (json_valid : Text → Bool) (byte_length : Text → ℕ) where
  -- A report that may be stored.
  pub record Storable (i : EventInput) : Type 0 where
    pub keyed : (is_firing i.status ≡ false) ⊎ (is_empty (trim_space i.dedupe_key) ≡ false)
    pub known_type : valid_event_type i.event_type ≡ true
    pub known_severity : valid_severity i.severity ≡ true
    pub with_source : is_empty (trim_space i.source) ≡ false
    pub with_message : is_empty (trim_space i.message) ≡ false
    pub small : byte_length i.payload ≤ max_payload_bytes
    pub well_formed : (byte_length i.payload ≡ 0) ⊎ (json_valid i.payload ≡ true)

  validate_report-Storable :
      (i j : EventInput) → validate_report json_valid byte_length i ≡ ok j → Storable j
  unfolding validate_report
  validate_report-Storable i j h = record {
    keyed = ground arith;
    known_type = ground arith;
    known_severity = ground arith;
    with_source = ground arith;
    with_message = ground arith;
    small = ground arith;
    well_formed = ground arith;
  }

  -- An input that passes validation is a `resolved` with a dedupe key, or a report with a known
  -- type and severity, a source, a message and a payload that is small and well formed, and with a
  -- dedupe key if it is `firing`.
  pub validate_input-Storable :
      (i j : EventInput)
      → validate_input json_valid byte_length i ≡ ok j
      → ((is_resolving j.status ≡ true) × (is_empty (trim_space j.dedupe_key) ≡ false)) ⊎ Storable j
  unfolding validate_input
  validate_input-Storable i j h = elim (Bool-cases (is_resolving i.status)) [
    | inl closing ↦ inl (ground arith, ground arith)
    | inr storing ↦ inr (validate_report-Storable i j (ground arith))
  ]
