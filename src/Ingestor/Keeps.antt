-- ===== src/Ingestor/Keeps.antt =====
-- What every frame and every error sent keeps, a whole run keeps.
use nexus_sdk.Prelude.{
  ℕ, Bool, true, false, Option, none, some, List, [], ◌∷◌, Result, ok, err, ◌&&◌,
}
use nexus_sdk.Ingestor.Types
use nexus_sdk.Ingestor.Types.{
  Text, Code, EventIngestionError, is_retryable, Event, Frame, State, Observed, Next, EndReason,
  ReplayFrame,
}
use nexus_sdk.Ingestor.Frames.{response_cursor, send, process_frame}
use nexus_sdk.Ingestor.Driver
use nexus_sdk.Ingestor.Driver.{StreamEnd, End, ReplayRound, Connection}

module _ {T : Type 0} (P : State T → Type 0) where
  stream_step-keeps :
      (s : State T) (cursor : Result EventIngestionError Text)
      (p : State T × Result EventIngestionError Bool) (reason : Option EndReason)
      (next : State T × StreamEnd)
      → P s
      → P p.0
      → P next.0
      → P (Driver.stream_step s cursor p reason next).0
  stream_step-keeps s (err e) p reason next h k n = h
  stream_step-keeps s (ok _) (t, err e) reason next h k n = k
  stream_step-keeps s (ok _) (t, ok false) reason next h k n = k
  stream_step-keeps s (ok _) (t, ok true) none next h k n = n
  stream_step-keeps s (ok _) (t, ok true) (some reason) next h k n = k

  stream_ended-keeps :
      (p : State T × StreamEnd) (waited : Bool) (next : State T × End)
      → P p.0
      → P next.0
      → P (Driver.stream_ended p waited next).0
  stream_ended-keeps (t, Driver.stream_waiting) waited next h n = h
  stream_ended-keeps (t, Driver.stream_stopped) waited next h n = h
  stream_ended-keeps (t, Driver.stream_broken e) waited next h n = h
  stream_ended-keeps (t, Driver.terminal Types.cursor_bound) waited next h n = h
  stream_ended-keeps (t, Driver.terminal Types.checkpoint_bound) waited next h n = h
  stream_ended-keeps (t, Driver.terminal Types.item_limit) waited next h n = n
  stream_ended-keeps (t, Driver.terminal Types.scan_limit) waited next h n = n
  stream_ended-keeps (t, Driver.terminal Types.ledger_tip) true next h n = n
  stream_ended-keeps (t, Driver.terminal Types.ledger_tip) false next h n = h
  stream_ended-keeps (t, Driver.terminal Types.unsupported) waited next h n = h

  round_step-keeps :
      (s : State T) (refused : Observed (Option Code)) (next : State T × End)
      → P s
      → P next.0
      → P (Driver.round_step s refused next).0
  round_step-keeps s Types.stopped next h n = h
  round_step-keeps s (Types.returned (some code)) next h n = h
  round_step-keeps s (Types.returned none) next h n = n

  live_step-keeps :
      (p : State T × Result EventIngestionError Bool) (next : State T × End)
      → P p.0
      → P next.0
      → P (Driver.live_step p next).0
  live_step-keeps (t, err e) next h n = h
  live_step-keeps (t, ok false) next h n = h
  live_step-keeps (t, ok true) next h n = n

  reconnect_step-keeps :
      (u : State T) (again : Bool) (next : State T × End)
      → P u
      → P next.0
      → P (Driver.reconnect_step u again next).0
  reconnect_step-keeps u true next h n = n
  reconnect_step-keeps u false next h n = h

module _ {T B : Type 0} (decode : Event B → Result Text (Option T)) (is_digest : Text → Bool)
    (accepts : ℕ → Bool) (P : State T → Type 0)
    (frame_keeps : (s : State T) (f : Frame B)
      → P s
      → P (process_frame decode is_digest accepts s f).0) where
  replay_stream-keeps :
      (s : State T) (frames : List (Observed (Next (ReplayFrame B))))
      → P s
      → P (Driver.replay_stream decode is_digest accepts s frames).0
  unfolding Driver.replay_stream
  replay_stream-keeps s [] h = h
  replay_stream-keeps s (Types.stopped ∷ rest) h = h
  replay_stream-keeps s (Types.returned (Types.failed code) ∷ rest) h = h
  replay_stream-keeps s (Types.returned Types.ended ∷ rest) h = h
  replay_stream-keeps s (Types.returned (Types.frame f) ∷ rest) h =
      let processed = process_frame decode is_digest accepts s f.content in
      let k = frame_keeps s f.content h in
      stream_step-keeps P s (response_cursor f.content.watermark) processed f.end_reason
        (Driver.replay_stream decode is_digest accepts processed.0 rest) h k
        (replay_stream-keeps processed.0 rest k)

  replay_events-keeps :
      (s : State T) (rounds : List (ReplayRound B))
      → P s
      → P (Driver.replay_events decode is_digest accepts s rounds).0
  unfolding Driver.replay_events
  replay_events-keeps s [] h = h
  replay_events-keeps s (round ∷ rest) h =
      let streamed = Driver.replay_stream decode is_digest accepts s round.frames in
      let k = replay_stream-keeps s round.frames h in
      let next = Driver.replay_events decode is_digest accepts streamed.0 rest in
      let n = replay_events-keeps streamed.0 rest k in
      round_step-keeps P s round.refused (Driver.stream_ended streamed round.waited next) h
        (stream_ended-keeps P streamed round.waited next k n)

  live_loop-keeps :
      (s : State T) (frames : List (Observed (Next (Frame B))))
      → P s
      → P (Driver.live_loop decode is_digest accepts s frames).0
  unfolding Driver.live_loop
  live_loop-keeps s [] h = h
  live_loop-keeps s (Types.stopped ∷ rest) h = h
  live_loop-keeps s (Types.returned (Types.failed code) ∷ rest) h = h
  live_loop-keeps s (Types.returned Types.ended ∷ rest) h = h
  live_loop-keeps s (Types.returned (Types.frame f) ∷ rest) h =
      let processed = process_frame decode is_digest accepts s f in
      let k = frame_keeps s f h in
      live_step-keeps P processed (Driver.live_loop decode is_digest accepts processed.0 rest) k
        (live_loop-keeps processed.0 rest k)

  after_replay-keeps :
      (p : State T × End) (frames : List (Observed (Next (Frame B))))
      → P p.0
      → P (Driver.after_replay decode is_digest accepts p frames).0
  after_replay-keeps (s, Driver.complete) frames h = live_loop-keeps s frames h
  after_replay-keeps (s, Driver.waiting) frames h = h
  after_replay-keeps (s, Driver.finished) frames h = h
  after_replay-keeps (s, Driver.broken e) frames h = h

  replay_from-keeps :
      (s : State T) (start : Option ℕ) (rounds : List (ReplayRound B))
      → P s
      → P (Driver.replay_from decode is_digest accepts s start rounds).0
  replay_from-keeps s none rounds h = h
  replay_from-keeps s (some start) rounds h = replay_events-keeps s rounds h

  with_cursor-keeps :
      (s : State T) (cursor : Result EventIngestionError Text) (next : State T × End)
      → P s
      → P next.0
      → P (Driver.with_cursor decode is_digest accepts s cursor next).0
  with_cursor-keeps s (err e) next h n = h
  with_cursor-keeps s (ok cursor) next h n = n

  establish-keeps :
      (s : State T) (rounds : List (ReplayRound B)) (frames : List (Observed (Next (Frame B))))
      → P s
      → P (Driver.establish decode is_digest accepts s rounds frames).0
  unfolding Driver.establish
  establish-keeps s rounds [] h = h
  establish-keeps s rounds (Types.stopped ∷ rest) h = h
  establish-keeps s rounds (Types.returned (Types.failed code) ∷ rest) h = h
  establish-keeps s rounds (Types.returned Types.ended ∷ rest) h = h
  establish-keeps s rounds (Types.returned (Types.frame f) ∷ rest) h =
      let frames = Types.returned (Types.frame f) ∷ rest in
      let replayed = Driver.replay_from decode is_digest accepts s s.resume rounds in
      with_cursor-keeps s (response_cursor f.watermark)
        (Driver.after_replay decode is_digest accepts replayed frames) h
        (after_replay-keeps replayed frames (replay_from-keeps s s.resume rounds h))

  subscribed_step-keeps :
      (s : State T) (client_ok : Bool) (subscribed : Observed (Option Code)) (next : State T × End)
      → P s
      → P next.0
      → P (Driver.subscribed_step decode is_digest accepts s client_ok subscribed next).0
  subscribed_step-keeps s false subscribed next h n = h
  subscribed_step-keeps s true Types.stopped next h n = h
  subscribed_step-keeps s true (Types.returned (some code)) next h n = h
  subscribed_step-keeps s true (Types.returned none) next h n = n

  pub run_connection-keeps :
      (s : State T) (c : Connection B)
      → P s
      → P (Driver.run_connection decode is_digest accepts s c).0
  unfolding Driver.run_connection
  run_connection-keeps s c h =
      subscribed_step-keeps s c.client_ok c.subscribed
        (Driver.establish decode is_digest accepts s c.replay c.frames) h
        (establish-keeps s c.replay c.frames h)

module _ {T B : Type 0} (decode : Event B → Result Text (Option T)) (is_digest : Text → Bool)
    (accepts : ℕ → Bool) (P : State T → Type 0)
    (frame_keeps : (s : State T) (f : Frame B)
      → P s
      → P (process_frame decode is_digest accepts s f).0)
    (error_keeps : (s : State T) (e : EventIngestionError)
      → P s
      → P (send decode is_digest accepts s (err e)).0) where
  error_sent-keeps :
      (p : State T × End) → P p.0 → P (Driver.error_sent decode is_digest accepts p).0
  error_sent-keeps (t, Driver.broken e) h = error_keeps t e h
  error_sent-keeps (t, Driver.waiting) h = h
  error_sent-keeps (t, Driver.complete) h = h
  error_sent-keeps (t, Driver.finished) h = h

  connection_ended-keeps :
      (p : State T × End) (again : Bool) (next : State T × End)
      → P p.0
      → P next.0
      → P (Driver.connection_ended decode is_digest accepts p again next).0
  connection_ended-keeps (t, Driver.waiting) again next h n = h
  connection_ended-keeps (t, Driver.complete) again next h n = h
  connection_ended-keeps (t, Driver.finished) again next h n = h
  connection_ended-keeps (t, Driver.broken e) again next h n =
      reconnect_step-keeps P (Driver.error_sent decode is_digest accepts (t, Driver.broken e)).0
        again next (error_keeps t e h) n

  pub run-keeps :
      (s : State T) (connections : List (Connection B))
      → P s
      → P (Driver.run decode is_digest accepts s connections).0
  unfolding Driver.run
  run-keeps s [] h = h
  run-keeps s (c ∷ rest) h =
      let connected = Driver.run_connection decode is_digest accepts s c in
      let k = run_connection-keeps decode is_digest accepts P frame_keeps s c h in
      let sent = Driver.error_sent decode is_digest accepts connected in
      let n = error_sent-keeps connected k in
      connection_ended-keeps connected
        (sent.1 && Driver.may_reconnect decode is_digest accepts connected.1 && c.waited)
        (Driver.run decode is_digest accepts sent.0 rest) k (run-keeps sent.0 rest n)
