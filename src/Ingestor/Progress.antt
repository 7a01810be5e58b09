-- ===== src/Ingestor/Progress.antt =====
-- The progress that the pages of a run report.
use nexus_sdk.Prelude.{
  ℕ, ◌<◌, ◌≡◌, refl, ap, inl, inr, Bool, true, Option, none, some, List, [], ◌∷◌, All, length,
  arith, Bool-cases, Result, ok, err,
}
use mathlib.Core.Path.{subst}
use nexus_sdk.Ingestor.Driver.{Connection, run}
use nexus_sdk.Ingestor.Keeps.{run-keeps}
use nexus_sdk.Ingestor.Pages.{process_frame-keeps}
use nexus_sdk.Ingestor.Types.{Text, EventIngestionError, Event, Frame, EventPage, Message, State}
use nexus_sdk.Ingestor.Frames.{
  is_newer, advance_checkpoint, is_empty, send, resume_at, send_page, process_frame,
}

newer-advance :
    (h : Option ℕ) (q c : ℕ)
    → is_newer (advance_checkpoint h q) c ≡ true
    → (q < c) × (is_newer h c ≡ true)
unfolding advance_checkpoint
newer-advance none q c e = ground arith
newer-advance (some h) q c e = ground arith

module _ {T : Type 0} where
  -- The highest checkpoint of the pages.
  abbrev pub highest_of : List (Message T) → Option ℕ
  highest_of [] = none
  highest_of (err _ ∷ ms) = highest_of ms
  highest_of (ok page ∷ ms) = advance_checkpoint (highest_of ms) page.checkpoint

  abbrev pub IsBelow : ℕ → Message T → Type 0
  IsBelow checkpoint (err _) = Unit
  IsBelow checkpoint (ok page) = page.checkpoint < checkpoint

  -- Every empty page lies strictly above all pages before it.
  abbrev pub IsProgress : List (Message T) → Type 0
  IsProgress [] = Unit
  IsProgress (err _ ∷ ms) = IsProgress ms
  IsProgress (ok page ∷ ms) =
      (is_empty page.events ≡ true → All (IsBelow page.checkpoint) ms) × IsProgress ms

  -- The state knows the highest page, and the empty pages rise.
  pub record IsConsistent (s : State T) : Type 0 where
    pub highest : s.highest ≡ highest_of s.output
    pub progress : IsProgress s.output

  All-IsBelow :
      (ms : List (Message T)) (c : ℕ) → is_newer (highest_of ms) c ≡ true → All (IsBelow c) ms
  All-IsBelow [] c h = tt
  All-IsBelow (err _ ∷ ms) c h = (tt, All-IsBelow ms c h)
  All-IsBelow (ok page ∷ ms) c h =
      let (below, newer) = newer-advance (highest_of ms) page.checkpoint c h in
      (below, All-IsBelow ms c newer)

module _ {T B : Type 0} (decode : Event B → Result Text (Option T)) (is_digest : Text → Bool)
    (accepts : ℕ → Bool) where
  resume_at-IsConsistent :
      (s : State T) (c : ℕ) → IsConsistent s → IsConsistent (resume_at decode is_digest accepts s c)
  resume_at-IsConsistent s c h = record { highest = h.highest; progress = h.progress }

  -- A page that is not empty, or new, keeps the state consistent.
  send_page-IsConsistent :
      (s : State T) (page : EventPage T)
      → IsConsistent s
      → (is_empty page.events ≡ true → is_newer s.highest page.checkpoint ≡ true)
      → IsConsistent (send_page decode is_digest accepts s page).0
  unfolding send_page send
  send_page-IsConsistent s page h new = elim (Bool-cases (accepts (length s.output))) [
    | inl taken ↦ rw taken record {
      highest = ap (λ h. advance_checkpoint h page.checkpoint) h.highest;
      progress = (
        (λ empty.
            All-IsBelow s.output page.checkpoint
              (subst (λ h. is_newer h page.checkpoint ≡ true) h.highest (new empty))),
        h.progress,
      );
    }
    | inr refused ↦ rw refused h
  ]

  process_frame-IsConsistent :
      (s : State T) (frame : Frame B)
      → IsConsistent s
      → IsConsistent (process_frame decode is_digest accepts s frame).0
  process_frame-IsConsistent =
      process_frame-keeps decode is_digest accepts IsConsistent resume_at-IsConsistent
        send_page-IsConsistent

  send_error-IsConsistent :
      (s : State T) (e : EventIngestionError)
      → IsConsistent s
      → IsConsistent (send decode is_digest accepts s (err e)).0
  unfolding send
  send_error-IsConsistent s e h = elim (Bool-cases (accepts (length s.output))) [
    | inl taken ↦ rw taken record { highest = h.highest; progress = h.progress }
    | inr refused ↦ rw refused h
  ]

-- Whatever the node, the clock and the channel do, over any number of connections: the driver knows the
-- highest checkpoint of all pages it sent, and every page without events, which reports progress, lies
-- strictly above all pages sent before it.
pub run-IsConsistent :
    {T B : Type 0} (decode : Event B → Result Text (Option T)) (is_digest : Text → Bool)
    (accepts : ℕ → Bool) (from_checkpoint : Option ℕ) (connections : List (Connection B))
    → IsConsistent
        (run decode is_digest accepts
          record { resume = from_checkpoint; highest = none; output = [] }
          connections).0
run-IsConsistent decode is_digest accepts from_checkpoint connections =
    run-keeps decode is_digest accepts IsConsistent
      (process_frame-IsConsistent decode is_digest accepts)
      (send_error-IsConsistent decode is_digest accepts)
      record { resume = from_checkpoint; highest = none; output = [] } connections
      record { highest = refl; progress = tt }
