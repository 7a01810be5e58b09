-- ===== src/Scheduler/Times.antt =====
-- Which times an occurrence may have.
use mathlib.Core.Bool.{false≢true}
use nexus_sdk.Prelude.{
  ℕ, ◌≤◌, ◌≡◌, refl, sym, ap, ◌⊎◌, inl, inr, ◌↔◌, Bool, true, false, not, ◌&&◌, ◌||◌, Option, none,
  some, arith, ok, >>=-eq-ok, >>=-of_ok, ok_injective,
}
use nexus_sdk.Scheduler.{
  OccurrenceRequest, is_some, is_late, ensure_start_before_deadline, ensure_deadline,
  ensure_offset_deadline_valid, validate_schedule_options, new_request,
}

-- The times of a request fit: a start that is required is given; an absolute deadline has an absolute start,
-- no later than it; an offset of the deadline has a start of either kind.
pub record IsSchedule (start_ms deadline_ms start_offset_ms deadline_offset_ms : Option ℕ)
    (require_start : Bool) : Type 0 where
  pub required : require_start ≡ true → (is_some start_ms ≡ true) ⊎ (is_some start_offset_ms ≡ true)
  pub absolute :
      (deadline : ℕ)
      → deadline_ms ≡ some deadline
      → (start : ℕ) × (start_ms ≡ some start) × (start ≤ deadline)
  pub relative :
      is_some deadline_offset_ms ≡ true
      → (is_some start_ms ≡ true) ⊎ (is_some start_offset_ms ≡ true)

-- The times, as tests.
abbrev times_fit : Option ℕ → Option ℕ → Option ℕ → Option ℕ → Bool → Bool
times_fit start deadline start_offset deadline_offset required =
    (not required || is_some start || is_some start_offset)
    && (not (is_some deadline) || is_some start)
    && not (is_late start deadline)
    && (not (is_some deadline_offset) || is_some start || is_some start_offset)

validate-times_fit :
    (start deadline start_offset deadline_offset : Option ℕ) (required : Bool)
    → (validate_schedule_options start deadline start_offset deadline_offset required ≡ ok tt)
      ↔ (times_fit start deadline start_offset deadline_offset required ≡ true)
unfolding validate_schedule_options ensure_deadline ensure_start_before_deadline
    ensure_offset_deadline_valid
validate-times_fit none none start_offset deadline_offset required = ground arith
validate-times_fit none (some d) start_offset deadline_offset required = ground arith
validate-times_fit (some s) none start_offset deadline_offset required = ground arith
validate-times_fit (some s) (some d) start_offset deadline_offset required = ground arith

or_cases : (a b : Bool) → (a || b) ≡ true → (a ≡ true) ⊎ (b ≡ true)
or_cases a b h = ground arith

of_or_cases : (a b : Bool) → (a ≡ true) ⊎ (b ≡ true) → (a || b) ≡ true
of_or_cases a b (inl h) = ground arith
of_or_cases a b (inr h) = ground arith

none-ne_some : {d : ℕ} → Path (Option ℕ) none (some d) → ⊥
none-ne_some h = cc

absolute-of_tests :
    (start deadline : Option ℕ)
    → (not (is_some deadline) || is_some start) ≡ true
    → is_late start deadline ≡ false
    → (d : ℕ) → deadline ≡ some d
    → (s : ℕ) × (start ≡ some s) × (s ≤ d)
absolute-of_tests start none h k d e = elim (none-ne_some e) [ ]
absolute-of_tests none (some d') h k d e = elim (false≢true h) [ ]
absolute-of_tests (some s) (some d') h k d e = (s, refl, ground arith)

tests-of_absolute :
    (start deadline : Option ℕ)
    → ((d : ℕ) → deadline ≡ some d → (s : ℕ) × (start ≡ some s) × (s ≤ d))
    → ((not (is_some deadline) || is_some start) ≡ true) × (not (is_late start deadline) ≡ true)
tests-of_absolute none none h = (refl, refl)
tests-of_absolute (some s) none h = (refl, refl)
tests-of_absolute start (some d) h = let (s, e, le) = h d refl in rw e (refl, ground arith)

negated : (a : Bool) → not a ≡ true → a ≡ false
negated a h = ground arith

-- The four tests.
four :
    (a b c d : Bool)
    → ((a && b && c && d) ≡ true) ↔ ((a ≡ true) × (b ≡ true) × (c ≡ true) × (d ≡ true))
four a b c d = ground arith

implies : (a b c : Bool) → ((not a || b || c) ≡ true) ↔ (a ≡ true → (b ≡ true) ⊎ (c ≡ true))
implies false b c = ((λ h e. elim (false≢true e) [ ]), λ h. refl)
implies true b c = ((λ h e. or_cases b c h), λ h. of_or_cases b c (h refl))

times_fit_iff :
    (start deadline start_offset deadline_offset : Option ℕ) (required : Bool)
    → (times_fit start deadline start_offset deadline_offset required ≡ true)
      ↔ IsSchedule start deadline start_offset deadline_offset required
times_fit_iff start deadline start_offset deadline_offset required =
    let (split, join) =
      four (not required || is_some start || is_some start_offset)
        (not (is_some deadline) || is_some start) (not (is_late start deadline))
        (not (is_some deadline_offset) || is_some start || is_some start_offset) in
    let needs = implies required (is_some start) (is_some start_offset) in
    let offset = implies (is_some deadline_offset) (is_some start) (is_some start_offset) in
    (
      (λ h.
          let (a, b, c, d) = split h in
          record {
            required = needs.0 a;
            absolute = absolute-of_tests start deadline b (negated (is_late start deadline) c);
            relative = offset.0 d;
          }),
      λ t.
          let (b, c) = tests-of_absolute start deadline t.absolute in
          join (needs.1 t.required, b, c, offset.1 t.relative),
    )

-- A request is made exactly if its times fit: a start if it is required, for an absolute deadline an
-- absolute start no later than it, and for an offset of the deadline a start of either kind. It then holds
-- the values that were given.
pub new_request_iff :
    (start deadline start_offset deadline_offset fee : Option ℕ) (required : Bool)
    (request : OccurrenceRequest)
    → (new_request start deadline start_offset deadline_offset fee required ≡ ok request) ↔ (
        IsSchedule start deadline start_offset deadline_offset required
        × (request ≡ record {
          start_ms = start;
          deadline_ms = deadline;
          start_offset_ms = start_offset;
          deadline_offset_ms = deadline_offset;
          priority_fee_percentage = fee;
        }))
unfolding new_request
new_request_iff start deadline start_offset deadline_offset fee required request =
    let checks = validate_schedule_options start deadline start_offset deadline_offset required in
    let tests = validate-times_fit start deadline start_offset deadline_offset required in
    let fits = times_fit_iff start deadline start_offset deadline_offset required in
    (
      (λ h.
          let (_, passed, made) = >>=-eq-ok checks _ h in
          (fits.0 (tests.0 passed), sym (ok_injective made))),
      λ (t, is). >>=-of_ok checks _ (tests.1 (fits.1 t)) (ap ok (sym is)),
    )
