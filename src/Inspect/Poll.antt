-- ===== src/Inspect/Poll.antt =====
-- sdk/src/nexus/workflow.rs: inspect_execution, over what is observed of the node until the deadline.
use nexus_sdk.Prelude.{
  ℕ, zero, suc, ◌+◌, Bool, true, false, Option, none, some, List, [], ◌∷◌, ◌++◌, any, if◌then◌else◌,
  Result, ok, err, ◌>>◌, bail_if, ◌==◌, nat_eq,
}
use nexus_sdk.Inspect.{
  ErrorChain, context, latest_object, zero_poll_interval, NexusError, rpc, configuration, channel,
  timeout, is_transient_inspection_error, ObjectUpdateReference, NexusEvent, is_execution_finished,
  Crawler,
}
use nexus_sdk.Inspect.Updates.{is_delivered, fetch_execution_update_events}

-- One poll: the answer to the request for the latest object, the node at each attempt to follow its updates until
-- the deadline, and after how many events the receiver is dropped, if it is.
pub record Observation : Type 0 where
  pub latest : Result ErrorChain ObjectUpdateReference
  pub crawlers : List Crawler
  pub closed_after : Option ℕ

-- What is sent to the channel, and whether all is.
abbrev pub send_event : NexusEvent → List NexusEvent × Bool → List NexusEvent × Bool
send_event event (sent, all_sent) = (event ∷ sent, all_sent)

abbrev pub send_events : Option ℕ → List NexusEvent → List NexusEvent × Bool
send_events none events = (events, true)
send_events (some n) [] = ([], true)
send_events (some zero) (event ∷ events) = ([], false)
send_events (some (suc n)) (event ∷ events) = send_event event (send_events (some n) events)

-- The events sent so far, and the end of the poller.
pub record Inspected : Type 0 where
  pub sent : List NexusEvent
  pub end : Result NexusError (Unit {0})

module _ (id expected_type deadline : ℕ) where
  -- The loop that follows the updates again after a transient error; none at the deadline.
  abbrev pub retry_if_transient :
      Option (Result NexusError (List NexusEvent))
      → Option (Result NexusError (List NexusEvent))
      → Option (Result NexusError (List NexusEvent))
  retry_if_transient again none = none
  retry_if_transient again (some (ok events)) = some (ok events)
  retry_if_transient again (some (err error)) =
      if is_transient_inspection_error error then again else some (err error)

  abbrev pub fetch_events :
      Option ℕ → ObjectUpdateReference → List Crawler → Option (Result NexusError (List NexusEvent))
  fetch_events last latest [] = none
  fetch_events last latest (crawler ∷ crawlers) =
      retry_if_transient (fetch_events last latest crawlers) (
        fetch_execution_update_events crawler id expected_type deadline last (latest.version + 1)
          latest)

  -- After the events are sent: the channel is closed, the execution is finished, or another poll.
  abbrev pub after_send :
      (List NexusEvent → Option ℕ → Inspected)
      → List NexusEvent
      → ℕ
      → List NexusEvent
      → List NexusEvent × Bool
      → Inspected
  after_send next sent version events (now_sent, false) = record {
    sent = sent ++ now_sent;
    end = err channel;
  }
  after_send next sent version events (now_sent, true) =
      if any is_execution_finished events
      then record { sent = sent ++ now_sent; end = ok tt }
      else next (sent ++ now_sent) (some version)

  abbrev pub after_fetch :
      (List NexusEvent → Option ℕ → Inspected)
      → List NexusEvent
      → ℕ
      → Option ℕ
      → Option (Result NexusError (List NexusEvent))
      → Inspected
  after_fetch next sent version closed_after none = record { sent = sent; end = err timeout }
  after_fetch next sent version closed_after (some (err error)) = record {
    sent = sent;
    end = err error;
  }
  after_fetch next sent version closed_after (some (ok events)) =
      after_send next sent version events (send_events closed_after events)

  abbrev pub after_latest :
      (List NexusEvent → Option ℕ → Inspected)
      → List NexusEvent
      → Option ℕ
      → Observation
      → Result ErrorChain ObjectUpdateReference
      → Inspected
  after_latest next sent last seen (err error) =
      if is_transient_inspection_error (rpc latest_object (context error))
      then next sent last
      else record { sent = sent; end = err (rpc latest_object (context error)) }
  after_latest next sent last seen (ok latest) =
      if is_delivered last latest.version
      then next sent last
      else after_fetch next sent latest.version seen.closed_after
          (fetch_events last latest seen.crawlers)

  -- The loop of the poller, which `timeout_at` ends at the deadline.
  abbrev pub poll_updates : List Observation → List NexusEvent → Option ℕ → Inspected
  poll_updates [] sent last = record { sent = sent; end = err timeout }
  poll_updates (seen ∷ rest) sent last = after_latest (poll_updates rest) sent last seen seen.latest

  -- `inspect_execution`
  unfoldable pub inspect_execution : ℕ → List Observation → Result NexusError Inspected
  inspect_execution poll_interval observations = do
    bail_if (poll_interval == 0) (configuration zero_poll_interval)
    ok (poll_updates observations [] none)
