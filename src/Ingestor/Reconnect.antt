-- ===== src/Ingestor/Reconnect.antt =====
-- The errors that a run reports.
use nexus_sdk.Prelude.{
  ℕ, ◌≡◌, refl, inl, inr, Bool, true, false, ◌&&◌, Option, none, List, [], ◌∷◌, All, length, arith,
  Bool-cases, Result, ok, err,
}
use nexus_sdk.Ingestor.Types.{
  Text, EventIngestionError, is_retryable, Event, EventPage, Message, State,
}
use nexus_sdk.Ingestor.Frames.{is_newer, is_empty, send, send_page}
use nexus_sdk.Ingestor.Driver
use nexus_sdk.Ingestor.Driver.{End, Connection, run}
use nexus_sdk.Ingestor.Keeps.{run_connection-keeps}
use nexus_sdk.Ingestor.Pages.{process_frame-keeps}

module _ {T : Type 0} where
  abbrev pub IsRetried : Message T → Type 0
  IsRetried (ok _) = Unit
  IsRetried (err e) = is_retryable e ≡ true

  -- Every error but the newest message is one that can be retried.
  abbrev pub IsRetriedBelow : List (Message T) → Type 0
  IsRetriedBelow [] = Unit
  IsRetriedBelow (_ ∷ ms) = All IsRetried ms

  IsRetriedBelow-of_All : (ms : List (Message T)) → All IsRetried ms → IsRetriedBelow ms
  IsRetriedBelow-of_All [] h = tt
  IsRetriedBelow-of_All (m ∷ ms) h = h.1

module _ {T B : Type 0} (decode : Event B → Result Text (Option T)) (is_digest : Text → Bool)
    (accepts : ℕ → Bool) where
  abbrev Retried : State T → Type 0
  Retried s = All IsRetried s.output

  send_page-Retried :
      (s : State T) (page : EventPage T)
      → Retried s
      → (is_empty page.events ≡ true → is_newer s.highest page.checkpoint ≡ true)
      → Retried (send_page decode is_digest accepts s page).0
  unfolding send_page send
  send_page-Retried s page h new = elim (Bool-cases (accepts (length s.output))) [
    | inl taken ↦ rw taken (tt, h)
    | inr refused ↦ rw refused h
  ]

  send_error-IsRetriedBelow :
      (s : State T) (e : EventIngestionError)
      → Retried s
      → IsRetriedBelow (send decode is_digest accepts s (err e)).0.output
  unfolding send
  send_error-IsRetriedBelow s e h = elim (Bool-cases (accepts (length s.output))) [
    | inl taken ↦ rw taken h
    | inr refused ↦ rw refused (IsRetriedBelow-of_All s.output h)
  ]

  send_error-Retried :
      (s : State T) (e : EventIngestionError)
      → is_retryable e ≡ true
      → Retried s
      → Retried (send decode is_digest accepts s (err e)).0
  unfolding send
  send_error-Retried s e r h = elim (Bool-cases (accepts (length s.output))) [
    | inl taken ↦ rw taken (r, h)
    | inr refused ↦ rw refused h
  ]

  run_connection-Retried :
      (s : State T) (c : Connection B)
      → Retried s
      → Retried (Driver.run_connection decode is_digest accepts s c).0
  run_connection-Retried =
      run_connection-keeps decode is_digest accepts Retried
        (process_frame-keeps decode is_digest accepts Retried (λ s c h. h) send_page-Retried)

  and_parts : (a b c : Bool) → (a && b && c) ≡ true → b ≡ true
  and_parts a b c h = ground arith

  -- After an error: if it is retried, the next connections decide, and else nothing follows it.
  reconnect_step-IsRetriedBelow :
      (u : State T) (again : Bool) (next : State T × End)
      → IsRetriedBelow u.output
      → (again ≡ true → IsRetriedBelow next.0.output)
      → IsRetriedBelow (Driver.reconnect_step u again next).0.output
  reconnect_step-IsRetriedBelow u true next h n = n refl
  reconnect_step-IsRetriedBelow u false next h n = h

  connection_ended-IsRetriedBelow :
      (p : State T × End) (sent waited : Bool) (next : State T × End)
      → Retried p.0
      → (Retried (Driver.error_sent decode is_digest accepts p).0 → IsRetriedBelow next.0.output)
      → IsRetriedBelow
          (Driver.connection_ended decode is_digest accepts p
            (sent && Driver.may_reconnect decode is_digest accepts p.1 && waited)
            next).0.output
  connection_ended-IsRetriedBelow (t, Driver.waiting) sent waited next h n =
      IsRetriedBelow-of_All t.output h
  connection_ended-IsRetriedBelow (t, Driver.complete) sent waited next h n =
      IsRetriedBelow-of_All t.output h
  connection_ended-IsRetriedBelow (t, Driver.finished) sent waited next h n =
      IsRetriedBelow-of_All t.output h
  connection_ended-IsRetriedBelow (t, Driver.broken e) sent waited next h n =
      reconnect_step-IsRetriedBelow (send decode is_digest accepts t (err e)).0
        (sent && is_retryable e && waited) next (send_error-IsRetriedBelow t e h)
        (λ again. n (send_error-Retried t e (and_parts sent (is_retryable e) waited again) h))

  run-IsRetriedBelow_from :
      (s : State T) (connections : List (Connection B))
      → Retried s
      → IsRetriedBelow (run decode is_digest accepts s connections).0.output
  unfolding run
  run-IsRetriedBelow_from s [] h = IsRetriedBelow-of_All s.output h
  run-IsRetriedBelow_from s (c ∷ rest) h =
      let connected = Driver.run_connection decode is_digest accepts s c in
      let sent = Driver.error_sent decode is_digest accepts connected in
      connection_ended-IsRetriedBelow connected sent.1 c.waited
        (run decode is_digest accepts sent.0 rest) (run_connection-Retried s c h)
        (λ k. run-IsRetriedBelow_from sent.0 rest k)

-- A failure that cannot be retried ends a run: whatever the node, the clock and the channel do, each
-- reported error but the last message on the channel is one that can be retried.
pub run-IsRetriedBelow :
    {T B : Type 0} (decode : Event B → Result Text (Option T)) (is_digest : Text → Bool)
    (accepts : ℕ → Bool) (from_checkpoint : Option ℕ) (connections : List (Connection B))
    → IsRetriedBelow
        (run decode is_digest accepts
          record { resume = from_checkpoint; highest = none; output = [] }
          connections).0.output
run-IsRetriedBelow decode is_digest accepts from_checkpoint connections =
    run-IsRetriedBelow_from decode is_digest accepts
      record { resume = from_checkpoint; highest = none; output = [] } connections tt
