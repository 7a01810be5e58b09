-- ===== src/Ingestor/Tests.antt =====
-- A run of the ingestor with a reconnect, and its live stream.
use nexus_sdk.Prelude.{
  ℕ, ◌≡◌, refl, Bool, true, Option, none, some, List, [], ◌∷◌, ◌++◌, ltb, Result, ok, err,
}
use nexus_sdk.Ingestor.Types
use nexus_sdk.Ingestor.Types.{
  Text, Event, Frame, EventPage, Message, State, Observed, Next, ReplayFrame,
}
use nexus_sdk.Ingestor.Frames
use nexus_sdk.Ingestor.Driver
use nexus_sdk.Ingestor.Driver.{Connection}
use nexus_sdk.Ingestor.Progress
use nexus_sdk.Ingestor.Reconnect
use nexus_sdk.Ingestor.Delivery

abbrev runs : Unit {0}
unfolding Types.is_retryable Frames.advance_checkpoint Frames.checked_watermark Frames.send
    Frames.send_page Frames.pass_checkpoint Frames.read_event Frames.pass_event Frames.process_frame
    Driver.replay_stream Driver.replay_events Driver.live_loop Driver.establish
    Driver.run_connection Driver.run
runs = tt

-- Zero is an event that the query leaves out.
abbrev decode : Event ℕ → Result Text (Option ℕ)
decode event = elim event.body [ ℕ.zero ↦ ok none | ℕ.suc n ↦ ok (some n) ]

abbrev is_digest : Text → Bool
is_digest digest = true

-- The channel takes ten messages.
abbrev accepts : ℕ → Bool
accepts n = ltb n 10

abbrev frame_at : ℕ → ℕ → Frame ℕ
frame_at checkpoint body = record {
  event = some record {
    checkpoint = some checkpoint;
    transaction_digest = some [];
    event_index = some 0;
    body = body;
  };
  watermark = some record { checkpoint = none; cursor = some (checkpoint ∷ []) };
}

abbrev progress_at : ℕ → Frame ℕ
progress_at checkpoint = record {
  event = none;
  watermark = some record { checkpoint = some checkpoint; cursor = some (checkpoint ∷ []) };
}

abbrev live : List (Observed (Next (Frame ℕ)))
live =
    Types.returned (Types.frame (progress_at 5))
    ∷ Types.returned (Types.frame (frame_at 6 8))
    ∷ Types.returned (Types.frame (frame_at 6 0))
    ∷ []

abbrev first : Connection ℕ
first = record {
  client_ok = true;
  subscribed = Types.returned none;
  replay = [];
  frames = live ++ Types.returned Types.ended ∷ [];
  waited = true;
}

abbrev second : Connection ℕ
second = record {
  client_ok = true;
  subscribed = Types.returned none;
  replay =
      record {
        refused = Types.returned none;
        frames =
            Types.returned
              (Types.frame record { content = frame_at 6 8; end_reason = some Types.cursor_bound })
            ∷ [];
        waited = true;
      }
      ∷ [];
  frames =
      Types.returned (Types.frame (frame_at 7 3))
      ∷ Types.returned (Types.failed Types.not_found)
      ∷ [];
  waited = true;
}

abbrev start : State ℕ
start = record { resume = none; highest = none; output = [] }

-- The stream ends and is resumed: the event at the checkpoint of the break is sent again by the replay.
run_twice :
    (Driver.run decode is_digest accepts start (first ∷ second ∷ [])).0.output
    ≡ err (Types.rpc Types.receiving Types.not_found)
      ∷ ok record { events = 2 ∷ []; checkpoint = 7 }
      ∷ ok record { events = 7 ∷ []; checkpoint = 6 }
      ∷ err (Types.rpc Types.receiving Types.unavailable)
      ∷ ok record { events = 7 ∷ []; checkpoint = 6 }
      ∷ ok record { events = []; checkpoint = 5 }
      ∷ []
unfolding runs
run_twice = refl

run-IsConsistent_example :
    Progress.IsConsistent (Driver.run decode is_digest accepts start (first ∷ second ∷ [])).0
run-IsConsistent_example =
    Progress.run-IsConsistent decode is_digest accepts none (first ∷ second ∷ [])

run-IsRetriedBelow_example :
    Reconnect.IsRetriedBelow
      (Driver.run decode is_digest accepts start (first ∷ second ∷ [])).0.output
run-IsRetriedBelow_example =
    Reconnect.run-IsRetriedBelow decode is_digest accepts none (first ∷ second ∷ [])

live_loop_delivers_example :
    Delivery.delivered (Driver.live_loop decode is_digest accepts start live).0.output ≡ 7 ∷ []
unfolding runs
live_loop_delivers_example = Delivery.live_loop_delivers decode is_digest accepts start live refl
