-- ===== src/Inspect/Tests.antt =====
-- An execution with two versions, of which the second finishes it, seen by three polls.
use nexus_sdk.Prelude.{
  ℕ, ◌≡◌, refl, none, some, List, [], ◌∷◌, ok, err, inl, inr, arith, if◌then◌else◌, Result, ◌==◌,
  nat_eq, zero, suc, ◌+◌, ◌*◌, Memᴰ,
}
use nexus_sdk.Inspect.{
  ErrorChain, unavailable, not_found, shared, ObjectUpdateReference, not_exist, exist, object_write,
  TransactionUpdate, NexusEvent, walk_advanced, execution_finished, event_execution_id, Crawler,
  is_transient_inspection_error, is_transaction_not_found,
}
use nexus_sdk.Inspect.Updates.{
  fetch_transaction_update_with_visibility_retry, fetch_change, execution_events, visit_update,
  visit, fetch_execution_update_events,
}
use nexus_sdk.Inspect.History.{Version, IsMade, IsHistory}
use nexus_sdk.Inspect.Chain.{fetch_execution_update_events-newer}
use nexus_sdk.Inspect.Poll.{Observation, Inspected, inspect_execution}
use nexus_sdk.Inspect.Grown.{IsDown, Grows, IsDelivered}
use nexus_sdk.Inspect.Completes.{IsSeen, inspect_execution-completes}
use nexus_sdk.Inspect.Delivered.{inspect_execution-IsDelivered}

abbrev runs : Unit {0}
unfolding event_execution_id is_transient_inspection_error is_transaction_not_found
    fetch_transaction_update_with_visibility_retry fetch_change execution_events visit_update visit
    fetch_execution_update_events inspect_execution
runs = tt

abbrev created : TransactionUpdate
created = record {
  digest = 30;
  lamport_version = 3;
  changed_objects =
      record { object_id = 7; input_state = not_exist; output_state = object_write 31 } ∷ [];
  events = 100 ∷ [];
}

abbrev finished : TransactionUpdate
finished = record {
  digest = 50;
  lamport_version = 5;
  changed_objects =
      record { object_id = 7; input_state = exist 3 31; output_state = object_write 51 } ∷ [];
  events = 101 ∷ [];
}

abbrev advanced_event : NexusEvent
advanced_event = record { index = 0; digest = 30; kind = walk_advanced 7 }

abbrev finished_event : NexusEvent
finished_event = record { index = 0; digest = 50; kind = execution_finished 7 }

abbrev reference_at : ℕ → ObjectUpdateReference
reference_at version = record {
  owner = shared 3;
  object_type = 9;
  version = version;
  digest = version * 10 + 1;
  previous_transaction = version * 10;
}

-- The transaction of the first version is found by the second request.
abbrev first_answer : ℕ → Result ErrorChain TransactionUpdate
first_answer zero = err (some not_found ∷ [])
first_answer (suc attempt) = ok created

abbrev crawler : Crawler
crawler = record {
  get_transaction_update =
      λ attempt digest. if digest == 30 then first_answer attempt else ok finished;
  get_object_update_reference = λ version. ok (reference_at version);
  retry_at = λ attempt digest. some 10;
  decode_sui_event =
      λ index digest raw. ok (some (if raw == 100 then advanced_event else finished_event));
}

abbrev first : Version
first = record { reference = reference_at 3; events = advanced_event ∷ [] }

abbrev second : Version
second = record { reference = reference_at 5; events = finished_event ∷ [] }

first-IsMade : IsMade crawler 7 9 100 (reference_at 3) not_exist (advanced_event ∷ [])
unfolding runs
first-IsMade = record {
  initial_version = 3;
  is_shared = refl;
  is_execution = refl;
  update = created;
  fetched = refl;
  at_version = refl;
  changed = record { object_id = 7; input_state = not_exist; output_state = object_write 31 };
  is_changed = refl;
  has_output = refl;
  has_input = refl;
  all_events = advanced_event ∷ [];
  decoded = refl;
  selected = refl;
}

second-IsMade : IsMade crawler 7 9 100 (reference_at 5) (exist 3 31) (finished_event ∷ [])
unfolding runs
second-IsMade = record {
  initial_version = 3;
  is_shared = refl;
  is_execution = refl;
  update = finished;
  fetched = refl;
  at_version = refl;
  changed = record { object_id = 7; input_state = exist 3 31; output_state = object_write 51 };
  is_changed = refl;
  has_output = refl;
  has_input = refl;
  all_events = finished_event ∷ [];
  decoded = refl;
  selected = refl;
}

history : IsHistory crawler 7 9 100 (second ∷ first ∷ [])
history = (second-IsMade, refl, omega arith, first-IsMade)

fetch_execution_update_events-newer_example :
    fetch_execution_update_events crawler 7 9 100 (some 3) 6 (reference_at 5)
    ≡ some (ok (finished_event ∷ []))
fetch_execution_update_events-newer_example =
    fetch_execution_update_events-newer crawler 7 9 100 (some 3) 6 second (first ∷ []) history
      (first, Memᴰ.tail (Memᴰ.head refl), refl) (omega arith)

abbrev unseen : Observation
unseen = record { latest = err (some unavailable ∷ []); crawlers = []; closed_after = none }

abbrev seen_at : ℕ → Observation
seen_at version = record {
  latest = ok (reference_at version);
  crawlers = crawler ∷ [];
  closed_after = none;
}

abbrev polls : List Observation
polls = seen_at 3 ∷ unseen ∷ seen_at 5 ∷ []

grows : Grows 7 9 100 [] polls (second ∷ first ∷ [])
unfolding runs
grows = inr (
  first ∷ [],
  first,
  [],
  refl,
  record { is_latest = refl; served = (inr first-IsMade, tt); is_open = refl },
  inl (
    (some unavailable ∷ [], refl, refl),
    inr (
      second ∷ [],
      second,
      first ∷ [],
      refl,
      record { is_latest = refl; served = (inr history, tt); is_open = refl },
      refl,
    ),
  ),
)

inspect_execution-IsDelivered_example :
    (o : Inspected) × (inspect_execution 7 9 100 1 polls ≡ ok o)
    × IsDelivered 7 9 100 o (second ∷ first ∷ [])
inspect_execution-IsDelivered_example =
    inspect_execution-IsDelivered 7 9 100 1 (second ∷ first ∷ []) polls (omega arith) grows

is_up_first : ¬ (IsDown 7 9 100 crawler (reference_at 3))
unfolding runs
is_up_first down = let (error, is, _) = down none in cc

is_up_second : ¬ (IsDown 7 9 100 crawler (reference_at 5))
unfolding runs
is_up_second down = let (error, is, _) = down none in cc

seen : IsSeen 7 9 100 [] polls (second ∷ first ∷ [])
unfolding runs
seen = inr (
  first ∷ [],
  first,
  [],
  refl,
  record { is_latest = refl; served = (inr first-IsMade, tt); is_open = refl },
  (crawler, Memᴰ.head refl, is_up_first),
  inr (
      inl (
        (some unavailable ∷ [], refl, refl),
        inr (
          second ∷ [],
          second,
          first ∷ [],
          refl,
          record { is_latest = refl; served = (inr history, tt); is_open = refl },
          (crawler, Memᴰ.head refl, is_up_second),
          inl (refl, refl),
        ),
      )),
)

inspect_execution-completes_example :
    (sent : List NexusEvent) × (inspect_execution 7 9 100 1 polls
      ≡ ok record { sent = sent; end = ok tt })
inspect_execution-completes_example =
    inspect_execution-completes 7 9 100 1 (second ∷ first ∷ []) polls (omega arith) seen refl

sends_all :
    inspect_execution 7 9 100 1 polls
    ≡ ok record { sent = advanced_event ∷ finished_event ∷ []; end = ok tt }
unfolding runs
sends_all = refl
