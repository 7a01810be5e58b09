-- ===== src/Inspect/Updates.antt =====
-- sdk/src/nexus/workflow.rs: fetch_execution_update_events, which follows the updates of an execution object
-- from its latest version back to the last one delivered.
use nexus_sdk.Prelude.{
  ℕ, zero, suc, ◌+◌, Bool, true, false, not, Option, none, some, List, [], ◌∷◌, concat, filter, ltb,
  leb, if◌then◌else◌, Result, ok, err, ◌>>=◌, ◌>>◌, bail_if, ok_or, ◌==◌, nat_eq,
}
use nexus_sdk.Inspect.{
  ErrorChain, context, message, not_shared, wrong_type, moved_backwards, missing_transaction,
  wrong_version, not_updated, unsupported_output, wrong_output_digest, undecodable_event,
  chain_ended, unsupported_input, not_backwards, crossed_delivered, missing_version,
  wrong_input_digest, NexusError, rpc, parsing, is_transaction_not_found, Owner, shared,
  other_owner, ObjectUpdateReference, ObjectIn, not_exist, exist, other_input, ObjectOut,
  object_write, other_output, ChangedObject, TransactionUpdate, NexusEvent, event_execution_id,
  Crawler, max_transaction_not_found_retries,
}

abbrev pub map_err {ℓ} :
    {A : Type ℓ} → (ErrorChain → NexusError) → Result ErrorChain A → Result NexusError A
map_err f (ok a) = ok a
map_err f (err e) = err (f e)

-- One more request, unless the deadline comes first.
abbrev pub retry_or_fail :
    ErrorChain
    → ℕ
    → Option ℕ
    → Result ErrorChain TransactionUpdate
    → Result ErrorChain TransactionUpdate
retry_or_fail error deadline none again = err error
retry_or_fail error deadline (some retry_at) again =
    if leb deadline retry_at then err error else again

abbrev pub after_answer :
    ℕ
    → Option ℕ
    → Result ErrorChain TransactionUpdate
    → Result ErrorChain TransactionUpdate
    → Result ErrorChain TransactionUpdate
after_answer deadline retry_at again (ok update) = ok update
after_answer deadline retry_at again (err error) =
    if is_transaction_not_found error
    then retry_or_fail error deadline retry_at again
    else err error

abbrev pub is_shared : Owner → Bool
is_shared (shared _) = true
is_shared other_owner = false

-- `last_delivered_version == Some(version)`
abbrev pub is_delivered : Option ℕ → ℕ → Bool
is_delivered none version = false
is_delivered (some delivered) version = delivered == version

-- `if let Some(delivered) = last_delivered_version { version < delivered }`
abbrev pub is_before : Option ℕ → ℕ → Bool
is_before none version = false
is_before (some delivered) version = ltb version delivered

abbrev pub find_changed : ℕ → List ChangedObject → Option ChangedObject
find_changed id [] = none
find_changed id (changed ∷ rest) =
    if changed.object_id == id then some changed else find_changed id rest

abbrev pub output_digest : ObjectOut → Result NexusError ℕ
output_digest (object_write digest) = ok digest
output_digest other_output = err (rpc unsupported_output message)

abbrev pub keep_event : Option NexusEvent → List NexusEvent → List NexusEvent
keep_event none events = events
keep_event (some event) events = event ∷ events

-- Where the loop goes after the events of an update.
pub data Previous : Type 0 where
  created_here : Previous
  version_before : ℕ → ℕ → Previous

-- `event_execution_id(&event.data) == Some(dag_execution_id)`
abbrev pub is_some_of : ℕ → Option ℕ → Bool
is_some_of id none = false
is_some_of id (some e) = e == id

abbrev pub is_of_execution : ℕ → NexusEvent → Bool
is_of_execution id event = is_some_of id (event_execution_id event.kind)

abbrev pub has_delivered : Option ℕ → Bool
has_delivered none = false
has_delivered (some _) = true

abbrev pub previous_of : Option ℕ → ObjectIn → Result NexusError Previous
previous_of last not_exist = do
  bail_if (has_delivered last) (rpc chain_ended message)
  ok created_here
previous_of last (exist version digest) = ok (version_before version digest)
previous_of last other_input = err (rpc unsupported_input message)

-- What one round of the loop comes to: no update is left, or the events of one, and the next cursor.
pub data Round : Type 0 where
  nothing_left : Round
  last_update : List NexusEvent → Round
  older_update : List NexusEvent → ObjectUpdateReference → Round

module _ (crawler : Crawler) where
  -- The loop, with the retries that are left.
  abbrev pub fetch_transaction_update : ℕ → ℕ → ℕ → ℕ → Result ErrorChain TransactionUpdate
  fetch_transaction_update zero attempt digest deadline =
      crawler.get_transaction_update attempt digest
  fetch_transaction_update (suc retries) attempt digest deadline =
      let again = fetch_transaction_update retries (attempt + 1) digest deadline in
      after_answer deadline (crawler.retry_at attempt digest) again
        (crawler.get_transaction_update attempt digest)

  unfoldable pub fetch_transaction_update_with_visibility_retry :
      ℕ → ℕ → Result ErrorChain TransactionUpdate
  fetch_transaction_update_with_visibility_retry digest deadline =
      fetch_transaction_update max_transaction_not_found_retries 0 digest deadline

  -- The events of the transaction that can be decoded, or an error if one cannot.
  abbrev pub decode_events : ℕ → ℕ → List ℕ → Result NexusError (List NexusEvent)
  decode_events index digest [] = ok []
  decode_events index digest (raw ∷ rest) = do
    event ← map_err (λ e. parsing undecodable_event) (crawler.decode_sui_event index digest raw)
    events ← decode_events (index + 1) digest rest
    ok (keep_event event events)

  module _ (id expected_type deadline : ℕ) (last : Option ℕ) where
    abbrev pub check_cursor : ObjectUpdateReference → Result NexusError (Unit {0})
    check_cursor cursor = do
      bail_if (not (is_shared cursor.owner)) (parsing not_shared)
      bail_if (not (cursor.object_type == expected_type)) (parsing wrong_type)

    -- The update that made this version, and the change of the object.
    unfoldable pub fetch_change :
        ObjectUpdateReference → Result NexusError (TransactionUpdate × ChangedObject)
    fetch_change cursor = do
      update ←
          map_err (λ e. rpc missing_transaction (context e))
            (fetch_transaction_update_with_visibility_retry cursor.previous_transaction deadline)
      bail_if (not (update.lamport_version == cursor.version)) (rpc wrong_version message)
      changed ← ok_or (find_changed id update.changed_objects) (rpc not_updated message)
      digest ← output_digest changed.output_state
      bail_if (not (digest == cursor.digest)) (rpc wrong_output_digest message)
      ok (update, changed)

    unfoldable pub execution_events : TransactionUpdate → Result NexusError (List NexusEvent)
    execution_events update = do
      events ← decode_events 0 update.digest update.events
      ok (filter (is_of_execution id) events)

    -- The cursor for a version before.
    abbrev pub fetch_older : List NexusEvent → ℕ → ℕ → Result NexusError Round
    fetch_older events version digest = do
      bail_if (is_before last version) (rpc crossed_delivered message)
      cursor ←
          map_err (λ e. rpc missing_version (context e))
            (crawler.get_object_update_reference version)
      bail_if (not (cursor.digest == digest)) (rpc wrong_input_digest message)
      ok (older_update events cursor)

    -- What comes after the events of an update.
    abbrev pub older : ObjectUpdateReference → List NexusEvent → Previous → Result NexusError Round
    older cursor events created_here = ok (last_update events)
    older cursor events (version_before version digest) = do
      bail_if (leb cursor.version version) (rpc not_backwards message)
      let next = fetch_older events version digest
      if is_delivered last version then ok (last_update events) else next

    -- The events of the update that made this version, and what comes after.
    unfoldable pub visit_update : ObjectUpdateReference → Result NexusError Round
    visit_update cursor = do
      bail_if (is_before last cursor.version) (rpc moved_backwards message)
      (update, changed) ← fetch_change cursor
      events ← execution_events update
      previous ← previous_of last changed.input_state
      older cursor events previous

    -- One round of the loop.
    unfoldable pub visit : ObjectUpdateReference → Result NexusError Round
    visit cursor = do
      check_cursor cursor
      let update = visit_update cursor
      if is_delivered last cursor.version then ok nothing_left else update

    -- What is left of the loop after a round; updates are kept with the oldest first.
    abbrev pub after_round :
        (ObjectUpdateReference
          → List (List NexusEvent)
          → Option (Result NexusError (List NexusEvent)))
        → List (List NexusEvent)
        → Result NexusError Round
        → Option (Result NexusError (List NexusEvent))
    after_round next updates (err error) = some (err error)
    after_round next updates (ok nothing_left) = some (ok (concat updates))
    after_round next updates (ok (last_update events)) = some (ok (concat (events ∷ updates)))
    after_round next updates (ok (older_update events cursor)) = next cursor (events ∷ updates)

    -- The loop, with fuel; none if this is used up.
    abbrev pub follow_updates :
        ℕ
        → ObjectUpdateReference
        → List (List NexusEvent)
        → Option (Result NexusError (List NexusEvent))
    follow_updates zero cursor updates = none
    follow_updates (suc fuel) cursor updates =
        let next = follow_updates fuel in after_round next updates (visit cursor)

    unfoldable pub fetch_execution_update_events :
        ℕ → ObjectUpdateReference → Option (Result NexusError (List NexusEvent))
    fetch_execution_update_events fuel latest = follow_updates fuel latest []
