-- ===== src/Ingestor/Driver.antt =====
-- The connections of sdk/src/sui/events/driver.rs: `replay_events`, `run_connection` and `run`, over what
-- the node and the clock are observed to do. Where the observations end, the task is still waiting.
use nexus_sdk.Prelude.{
  ℕ, Bool, true, false, not, ◌&&◌, Option, none, some, List, [], ◌∷◌, Result, ok, err, ◌==◌, nat_eq,
  if◌then◌else◌,
}
use nexus_sdk.Ingestor.Types
use nexus_sdk.Ingestor.Types.{
  Text, Code, EventIngestionError, configuration, rpc, protocol, is_retryable, Event, Frame,
  Message, State, Observed, Next, EndReason, ReplayFrame,
}
use nexus_sdk.Ingestor.Frames.{response_cursor, send, process_frame}

-- How a replay stream ends.
pub data StreamEnd : Type 0 where
  stream_waiting : StreamEnd
  -- `Ok(false)`: the token or the receiver stopped the task
  stream_stopped : StreamEnd
  stream_broken : EventIngestionError → StreamEnd
  terminal : EndReason → StreamEnd

-- How a replay, a connection or a run ends.
pub data End : Type 0 where
  waiting : End
  -- the replay is complete, and the live stream goes on
  complete : End
  finished : End
  broken : EventIngestionError → End

-- One request of a replay: refused, or a stream; and whether a wait at the ledger tip ran to its end.
pub record ReplayRound (B : Type 0) : Type 0 where
  pub refused : Observed (Option Code)
  pub frames : List (Observed (Next (ReplayFrame B)))
  pub waited : Bool

pub record Connection (B : Type 0) : Type 0 where
  pub client_ok : Bool
  -- a status refuses the subscription
  pub subscribed : Observed (Option Code)
  pub replay : List (ReplayRound B)
  pub frames : List (Observed (Next (Frame B)))
  -- whether the wait before the next connection ran to its end
  pub waited : Bool

-- What a loop does after each of its steps, given what it would do next.
module _ {T : Type 0} where
  -- A replay frame: the state before it, its cursor, what processing it did and its end reason.
  abbrev pub stream_step :
      State T
      → Result EventIngestionError Text
      → State T × Result EventIngestionError Bool
      → Option EndReason
      → State T × StreamEnd
      → State T × StreamEnd
  stream_step s (err e) p reason next = (s, stream_broken e)
  stream_step s (ok _) (t, err e) reason next = (t, stream_broken e)
  stream_step s (ok _) (t, ok false) reason next = (t, stream_stopped)
  stream_step s (ok _) (t, ok true) none next = next
  stream_step s (ok _) (t, ok true) (some reason) next = (t, terminal reason)

  -- A replay stream that ended: on a limit the next request follows, at the ledger tip after a wait.
  abbrev pub stream_ended : State T × StreamEnd → Bool → State T × End → State T × End
  stream_ended (t, stream_waiting) waited next = (t, waiting)
  stream_ended (t, stream_stopped) waited next = (t, finished)
  stream_ended (t, stream_broken e) waited next = (t, broken e)
  stream_ended (t, terminal Types.cursor_bound) waited next = (t, complete)
  stream_ended (t, terminal Types.checkpoint_bound) waited next = (t, complete)
  stream_ended (t, terminal Types.item_limit) waited next = next
  stream_ended (t, terminal Types.scan_limit) waited next = next
  stream_ended (t, terminal Types.ledger_tip) true next = next
  stream_ended (t, terminal Types.ledger_tip) false next = (t, finished)
  stream_ended (t, terminal Types.unsupported) waited next =
      (t, broken (protocol Types.unsupported_end))

  -- A replay request: stopped, refused or answered by a stream.
  abbrev pub round_step : State T → Observed (Option Code) → State T × End → State T × End
  round_step s Types.stopped next = (s, finished)
  round_step s (Types.returned (some code)) next = (s, broken (rpc Types.requesting_replay code))
  round_step s (Types.returned none) next = next

  -- A live frame.
  abbrev pub live_step : State T × Result EventIngestionError Bool → State T × End → State T × End
  live_step (t, err e) next = (t, broken e)
  live_step (t, ok false) next = (t, finished)
  live_step (t, ok true) next = next

  -- An error that was sent: whether to connect again.
  abbrev pub reconnect_step : State T → Bool → State T × End → State T × End
  reconnect_step u true next = next
  reconnect_step u false next = (u, finished)

module _ {T B : Type 0} (decode : Event B → Result Text (Option T)) (is_digest : Text → Bool)
    (accepts : ℕ → Bool) where
  unfoldable pub replay_stream :
      State T → List (Observed (Next (ReplayFrame B))) → State T × StreamEnd
  replay_stream s [] = (s, stream_waiting)
  replay_stream s (Types.stopped ∷ rest) = (s, stream_stopped)
  replay_stream s (Types.returned (Types.failed code) ∷ rest) =
      (s, stream_broken (rpc Types.receiving_replay code))
  replay_stream s (Types.returned Types.ended ∷ rest) =
      (s, stream_broken (protocol Types.no_terminal_frame))
  replay_stream s (Types.returned (Types.frame f) ∷ rest) =
      let processed = process_frame decode is_digest accepts s f.content in
      let next = replay_stream processed.0 rest in
      stream_step s (response_cursor f.content.watermark) processed f.end_reason next

  -- `replay_events`
  unfoldable pub replay_events : State T → List (ReplayRound B) → State T × End
  replay_events s [] = (s, waiting)
  replay_events s (round ∷ rest) =
      let streamed = replay_stream s round.frames in
      let next = replay_events streamed.0 rest in
      round_step s round.refused (stream_ended streamed round.waited next)

  -- The loop over the frames of a live stream.
  unfoldable pub live_loop : State T → List (Observed (Next (Frame B))) → State T × End
  live_loop s [] = (s, waiting)
  live_loop s (Types.stopped ∷ rest) = (s, finished)
  live_loop s (Types.returned (Types.failed code) ∷ rest) = (s, broken (rpc Types.receiving code))
  live_loop s (Types.returned Types.ended ∷ rest) =
      (s, broken (rpc Types.receiving Types.unavailable))
  live_loop s (Types.returned (Types.frame f) ∷ rest) =
      let processed = process_frame decode is_digest accepts s f in
      let next = live_loop processed.0 rest in live_step processed next

  -- The replay before the live stream, if there is a checkpoint to resume from.
  abbrev pub replay_from : State T → Option ℕ → List (ReplayRound B) → State T × End
  replay_from s none rounds = (s, complete)
  replay_from s (some start) rounds = replay_events s rounds

  -- The live stream after the replay; its first frame was received before.
  abbrev pub after_replay : State T × End → List (Observed (Next (Frame B))) → State T × End
  after_replay (s, complete) frames = live_loop s frames
  after_replay (s, waiting) frames = (s, waiting)
  after_replay (s, finished) frames = (s, finished)
  after_replay (s, broken e) frames = (s, broken e)

  -- A first frame without a cursor is an error.
  abbrev pub with_cursor : State T → Result EventIngestionError Text → State T × End → State T × End
  with_cursor s (err e) next = (s, broken e)
  with_cursor s (ok cursor) next = next

  -- The first frame fixes the cursor at which a replay stops.
  unfoldable pub establish :
      State T → List (ReplayRound B) → List (Observed (Next (Frame B))) → State T × End
  establish s rounds [] = (s, waiting)
  establish s rounds (Types.stopped ∷ rest) = (s, finished)
  establish s rounds (Types.returned (Types.failed code) ∷ rest) =
      (s, broken (rpc Types.establishing code))
  establish s rounds (Types.returned Types.ended ∷ rest) =
      (s, broken (rpc Types.establishing Types.unavailable))
  establish s rounds (Types.returned (Types.frame f) ∷ rest) =
      with_cursor s (response_cursor f.watermark)
        (after_replay (replay_from s s.resume rounds) (Types.returned (Types.frame f) ∷ rest))

  -- The subscription, with a client for a valid endpoint.
  abbrev pub subscribed_step :
      State T → Bool → Observed (Option Code) → State T × End → State T × End
  subscribed_step s false subscribed next = (s, broken configuration)
  subscribed_step s true Types.stopped next = (s, finished)
  subscribed_step s true (Types.returned (some code)) next =
      (s, broken (rpc Types.subscribing code))
  subscribed_step s true (Types.returned none) next = next

  unfoldable pub run_connection : State T → Connection B → State T × End
  run_connection s connection =
      subscribed_step s connection.client_ok connection.subscribed
        (establish s connection.replay connection.frames)

  abbrev pub error_sent : State T × End → State T × Bool
  error_sent (t, broken e) = send decode is_digest accepts t (err e)
  error_sent (t, _) = (t, false)

  abbrev pub may_reconnect : End → Bool
  may_reconnect (broken e) = is_retryable e
  may_reconnect _ = false

  -- A connection that ended: an error is sent, and connects again if it is retryable and the wait ran to
  -- its end.
  abbrev pub connection_ended : State T × End → Bool → State T × End → State T × End
  connection_ended (t, waiting) again next = (t, waiting)
  connection_ended (t, complete) again next = (t, finished)
  connection_ended (t, finished) again next = (t, finished)
  connection_ended (t, broken e) again next = reconnect_step (error_sent (t, broken e)).0 again next

  unfoldable pub run : State T → List (Connection B) → State T × End
  run s [] = (s, waiting)
  run s (connection ∷ rest) =
      let connected = run_connection s connection in
      let (u, sent) = error_sent connected in
      let next = run u rest in
      connection_ended connected (sent && may_reconnect connected.1 && connection.waited) next

  -- `start`, with its checks of the capacity, the endpoint and the fields.
  unfoldable pub start :
      ℕ → Bool → Bool → Option ℕ → List (Connection B) → Result EventIngestionError (State T × End)
  start capacity endpoint_ok fields_ok from_checkpoint connections =
      if not (capacity == 0) && endpoint_ok && fields_ok
      then ok (run record { resume = from_checkpoint; highest = none; output = [] } connections)
      else err configuration
