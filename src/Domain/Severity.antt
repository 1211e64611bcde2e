-- ===== src/Domain/Severity.antt =====
-- internal/domain/event.go: the order of alarm.
use alertloop.Base.{
  Text, runes, [], text_eq, if◌then◌else◌, ℕ, Bool, true, Option, none, some, ◌≡◌, ◌↔◌, ◌≤◌, arith,
  is_some,
}
use alertloop.Domain.Event.{Severity, info, success, warning, error, critical}

-- Severity is a string type: string(s), and the conversion back.
unfoldable pub severity_text : Severity → Text
severity_text Severity.unset = []
severity_text info = runes "info"
severity_text success = runes "success"
severity_text warning = runes "warning"
severity_text error = runes "error"
severity_text critical = runes "critical"
severity_text (Severity.unknown t) = t

unfoldable pub to_severity : Text → Severity
unfolding text_eq
to_severity t =
    if text_eq t []
    then Severity.unset
    else if text_eq t (runes "info")
    then info
    else if text_eq t (runes "success")
    then success
    else if text_eq t (runes "warning")
    then warning
    else if text_eq t (runes "error")
    then error
    else if text_eq t (runes "critical")
    then critical
    else Severity.unknown t

-- the map `severityRanks`
unfoldable pub severity_ranks : Severity → Option ℕ
severity_ranks info = some 10
severity_ranks success = some 10
severity_ranks warning = some 20
severity_ranks error = some 30
severity_ranks critical = some 40
severity_ranks _ = none

unfoldable pub valid_severity : Severity → Bool
unfolding severity_ranks
valid_severity s = is_some (severity_ranks s)

-- an absent key reads as 0
unfoldable pub severity_rank : Severity → ℕ
unfolding severity_ranks
severity_rank s = elim (severity_ranks s) [ some r ↦ r | none ↦ 0 ]

-- A severity is valid exactly when its rank is not 0.
pub valid_severity_iff : (s : Severity) → (valid_severity s ≡ true) ↔ (1 ≤ severity_rank s)
unfolding valid_severity severity_rank
valid_severity_iff info = ground arith
valid_severity_iff _ = ground arith
