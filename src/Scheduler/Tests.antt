-- ===== src/Scheduler/Tests.antt =====
-- Requests with an absolute start and a late deadline.
use nexus_sdk.Prelude.{◌≡◌, refl, true, none, some, err}
use nexus_sdk.Scheduler.{
  OccurrenceRequest, deadline_before_start, ensure_start_before_deadline, ensure_deadline,
  ensure_offset_deadline_valid, validate_schedule_options, new_request,
}
use nexus_sdk.Scheduler.Times.{IsSchedule, new_request_iff}

abbrev runs : Unit {0}
unfolding ensure_start_before_deadline ensure_deadline ensure_offset_deadline_valid
    validate_schedule_options new_request
runs = tt

refuses_late : new_request (some 9) (some 4) none none none true ≡ err deadline_before_start
unfolding runs
refuses_late = refl

abbrev request : OccurrenceRequest
request = record {
  start_ms = some 4;
  deadline_ms = some 9;
  start_offset_ms = none;
  deadline_offset_ms = some 2;
  priority_fee_percentage = none;
}

new_request_iff_example :
    IsSchedule (some 4) (some 9) none (some 2) true
    × (request ≡ record {
      start_ms = some 4;
      deadline_ms = some 9;
      start_offset_ms = none;
      deadline_offset_ms = some 2;
      priority_fee_percentage = none;
    })
unfolding runs
new_request_iff_example = (new_request_iff (some 4) (some 9) none (some 2) none true request).0 refl
