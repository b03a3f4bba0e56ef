-- ===== src/StudioClock.antt =====
-- src/utils/studio_clock.rs: local times, what has started, and the window of a time of day.
use dream_fly_backend.Prelude.{
  ℕ, ℤ, leb, leb_ℤ, not, String, Bool, Option, none, some, if◌then◌else◌,
}
use dream_fly_backend.Base.{Instant}
use dream_fly_backend.AppError.{
  AppError, Result, ok, err, bad_request, validation, format, str, plain, ok_or, ◌>>=◌,
}
use mathlib.Core.List.{[], ◌∷◌}

-- The studio's time: `zone` converts a local day and second to the instant that they name, `none`
-- if there is no single one; it is the configured time zone's part.
pub record StudioNow : Type 0 where
  pub zone : ℤ → ℕ → Option Instant
  pub now : Instant

abbrev pub ambiguous : String → AppError
ambiguous noun = bad_request (format "{noun} falls on an ambiguous local time" (str noun ∷ []))

unfoldable pub to_utc_checked : StudioNow → ℤ → ℕ → String → Result Instant
to_utc_checked at date time noun = ok_or (at.zone date time) (ambiguous noun)

abbrev reject_when : Bool → AppError → Result (Unit {0})
reject_when c e = if c then err e else ok tt

unfoldable pub require_not_started : StudioNow → ℤ → ℕ → String → AppError → Result (Unit {0})
require_not_started at date time noun started =
    to_utc_checked at date time noun >>= λ utc. reject_when (leb_ℤ utc at.now) started

unfoldable pub require_started : StudioNow → ℤ → ℕ → String → AppError → Result (Unit {0})
require_started at date time noun not_started =
    to_utc_checked at date time noun >>= λ utc. reject_when (not (leb_ℤ utc at.now)) not_started

abbrev at_or_before : Instant → Option Instant → Option Bool
at_or_before now none = none
at_or_before now (some utc) = some (leb_ℤ utc now)

unfoldable pub has_started : StudioNow → ℤ → ℕ → Option Bool
has_started at date time = at_or_before at.now (at.zone date time)

unfoldable pub has_ended : StudioNow → ℤ → ℕ → Option Bool
has_ended at date time = at_or_before at.now (at.zone date time)

unfoldable pub validate_time_window : (start end : ℕ) → Result (Unit {0})
validate_time_window start end =
    reject_when (leb end start) (validation (plain "end_time must be after start_time"))
