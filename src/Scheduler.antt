-- ===== src/Scheduler.antt =====
-- sdk/src/nexus/scheduler.rs: the request of an occurrence and the checks of its times.
use nexus_sdk.Prelude.{
  ℕ, Bool, true, false, not, ◌&&◌, ◌||◌, Option, none, some, ltb, Result, ok, ◌>>=◌, ◌>>◌, bail_if,
}
pub mod Times
pub mod Tests

-- The reasons of `NexusError::Configuration`.
pub data ScheduleError : Type 0 where
  start_required : ScheduleError
  deadline_without_start : ScheduleError
  deadline_flag_without_start : ScheduleError
  deadline_before_start : ScheduleError
  offset_without_start : ScheduleError

pub record OccurrenceRequest : Type 0 where
  pub start_ms : Option ℕ
  pub deadline_ms : Option ℕ
  pub start_offset_ms : Option ℕ
  pub deadline_offset_ms : Option ℕ
  pub priority_fee_percentage : Option ℕ

abbrev pub is_some : Option ℕ → Bool
is_some none = false
is_some (some _) = true

abbrev pub is_none : Option ℕ → Bool
is_none o = not (is_some o)

-- `if let (Some(start), Some(deadline)) = .. { deadline < start }`
abbrev pub is_late : Option ℕ → Option ℕ → Bool
is_late (some start) (some deadline) = ltb deadline start
is_late none deadline = false
is_late (some _) none = false

unfoldable pub ensure_start_before_deadline : Option ℕ → Option ℕ → Result ScheduleError (Unit {0})
ensure_start_before_deadline start_ms deadline_ms =
    bail_if (is_late start_ms deadline_ms) deadline_before_start

-- `if let Some(start) = start_ms { ensure_start_before_deadline(..)? }`
unfoldable pub ensure_deadline : Option ℕ → Option ℕ → Result ScheduleError (Unit {0})
ensure_deadline none deadline_ms = ok tt
ensure_deadline (some start) deadline_ms = ensure_start_before_deadline (some start) deadline_ms

unfoldable pub ensure_offset_deadline_valid :
    Option ℕ → Option ℕ → Option ℕ → Result ScheduleError (Unit {0})
ensure_offset_deadline_valid start_ms start_offset_ms deadline_offset_ms =
    bail_if (is_some deadline_offset_ms && is_none start_offset_ms && is_none start_ms)
      offset_without_start

unfoldable pub validate_schedule_options :
    Option ℕ → Option ℕ → Option ℕ → Option ℕ → Bool → Result ScheduleError (Unit {0})
validate_schedule_options start_ms deadline_ms start_offset_ms deadline_offset_ms require_start = do
  bail_if (require_start && is_none start_ms && is_none start_offset_ms) start_required
  bail_if (is_some deadline_ms && is_none start_ms) deadline_without_start
  bail_if
      (is_none start_ms
        && is_none start_offset_ms
        && (is_some deadline_ms || is_some deadline_offset_ms))
      deadline_flag_without_start
  ensure_deadline start_ms deadline_ms
  ensure_offset_deadline_valid start_ms start_offset_ms deadline_offset_ms

-- `OccurrenceRequest::new`
unfoldable pub new_request :
    Option ℕ
    → Option ℕ
    → Option ℕ
    → Option ℕ
    → Option ℕ
    → Bool
    → Result ScheduleError OccurrenceRequest
new_request start_ms deadline_ms start_offset_ms deadline_offset_ms priority_fee_percentage
      require_start =
    do
      validate_schedule_options start_ms deadline_ms start_offset_ms deadline_offset_ms
          require_start
      ok record {
        start_ms = start_ms;
        deadline_ms = deadline_ms;
        start_offset_ms = start_offset_ms;
        deadline_offset_ms = deadline_offset_ms;
        priority_fee_percentage = priority_fee_percentage;
      }
