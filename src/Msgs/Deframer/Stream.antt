-- ===== src/Msgs/Deframer/Stream.antt =====
-- A specification of deframing on the whole stream, and that the loop of the deframer meets it.
use tlsn.Common.{
  ℕ, zero, suc, ◌+◌, ◌<◌, ◌≤◌, ◌≡◌, refl, sym, ap, ◌∙◌, some, List, [], ◌∷◌, ◌++◌, arith,
  append-nil, append_assoc, length, drop, drop-append_le, Result-cases, ok, err, Bool, true, false,
  ◌||◌, Bool-cases, inl, inr, copy_from_slice, if◌then◌else◌,
}
use tlsn.Msgs.Message.{OpaqueMessage, MessageError, max_wire_size}
use tlsn.Msgs.Message.Verdicts.{frame_of, is_too_short, frame_of-length, frame_of-append_ok}
use tlsn.Msgs.Deframer.{MessageDeframer, buf_consume, deframe_loop, read, received, failed}
use tlsn.Msgs.Deframer.Steps.{
  IsValid, pending, pending-stored, stored-IsValid, pending-failed, failed-IsValid, length-pending,
  pending-buf_consume, buf_consume-IsValid, frames-buf_consume, desynced-buf_consume,
  filled-buf_consume, try_deframe_one_valid, try_deframe_one_stop,
}

-- `Deframes bytes ms rest bad`: the frames of `bytes` are `ms`; behind them stand `rest`, which begin
-- a frame that is not complete, or, if `bad`, something that is no frame.
pub data Deframes : List ℕ → List OpaqueMessage → List ℕ → Bool → Type 0 where
  frame :
      {bytes rest : List ℕ} {ms : List OpaqueMessage} {bad : Bool} (m : OpaqueMessage)
      → frame_of bytes ≡ ok m
      → Deframes (drop (5 + length m.payload) bytes) ms rest bad
      → Deframes bytes (m ∷ ms) rest bad
  stop :
      {bytes : List ℕ} {bad : Bool} (e : MessageError)
      → frame_of bytes ≡ err e
      → is_too_short e ≡ (if bad then false else true)
      → Deframes bytes [] bytes bad

-- Bytes that arrive later go on where the earlier ones stopped.
pub Deframes-append :
    {xs rest : List ℕ} {ms : List OpaqueMessage} {bad : Bool} (ys : List ℕ)
    {ms' : List OpaqueMessage} {rest' : List ℕ} {bad' : Bool}
    → Deframes xs ms rest bad
    → Deframes (rest ++ ys) ms' rest' bad'
    → Deframes (xs ++ ys) (ms ++ ms') rest' bad'
Deframes-append {xs = xs} ys (frame m q t) u = frame m (frame_of-append_ok xs ys m q) (
    rw (drop-append_le xs ys (5 + length m.payload) (frame_of-length xs m q))
      (Deframes-append ys t u))
Deframes-append ys (stop e q b) u = u

-- What a run of the loop leaves behind, from the state `d`.
pub record Leaves (d d' : MessageDeframer) : Type 0 where
  pub ms : List OpaqueMessage
  pub bad : Bool
  pub spec : Deframes (pending d) ms (pending d') bad
  pub queued : d'.frames ≡ d.frames ++ ms
  pub flagged : d'.desynced ≡ (d.desynced || bad)
  pub kept : IsValid d'

-- A run goes on behind a frame.
Leaves-frame :
    (d d' : MessageDeframer) (m : OpaqueMessage)
    → frame_of (pending d) ≡ ok m
    → IsValid d
    → 5 + length m.payload ≤ d.filled
    → Leaves (buf_consume (5 + length m.payload) (record d { frames = d.frames ++ (m ∷ []) })) d'
    → Leaves d d'
Leaves-frame d d' m q v in_range l =
    let taken = 5 + length m.payload in
    let d1 = record d { frames = d.frames ++ (m ∷ []) } in
    let v1 : IsValid d1 = record { size = v.size; fits = v.fits } in
    record {
      ms = m ∷ l.ms;
      bad = l.bad;
      spec = frame m q (rw (pending-buf_consume d1 v1 taken in_range) at l.spec);
      queued =
          l.queued
          ∙ ap (λ t. t ++ l.ms) (frames-buf_consume taken d1)
          ∙ append_assoc d.frames (m ∷ []) l.ms;
      flagged = l.flagged ∙ ap (λ t. t || l.bad) (desynced-buf_consume taken d1);
      kept = l.kept;
    }

-- From any valid state the loop ends within its fuel, and leaves what the specification says.
pub deframe_loop-Leaves :
    (fuel : ℕ) (d : MessageDeframer)
    → IsValid d
    → d.filled < fuel
    → (d' : MessageDeframer) × (deframe_loop fuel d ≡ some d') × Leaves d d'
unfolding deframe_loop
deframe_loop-Leaves zero d v h = absurd (omega arith)
deframe_loop-Leaves (suc fuel) d v h = elim (Result-cases (frame_of (pending d))) [
  | inl (m, q) ↦
      let taken = 5 + length m.payload in
      let d1 = record d { frames = d.frames ++ (m ∷ []) } in
      let v1 : IsValid d1 = record { size = v.size; fits = v.fits } in
      let in_range : taken ≤ d.filled =
        omega (arith, frame_of-length (pending d) m q, length-pending d v) in
      let d2 = buf_consume taken d1 in
      let (d', runs, l) =
        deframe_loop-Leaves fuel d2 (buf_consume-IsValid d1 v1 taken in_range)
          (omega (arith, filled-buf_consume taken d1 in_range)) in
      (d', rw (try_deframe_one_valid d v m q) runs, Leaves-frame d d' m q v in_range l)
  | inr (e, q) ↦ elim (Bool-cases (is_too_short e)) [
    | inl short ↦ (
      d,
      rw (try_deframe_one_stop d v e q, short),
      record {
        ms = [];
        bad = false;
        spec = stop e q short;
        queued = sym (append-nil d.frames);
        flagged = ground arith;
        kept = v;
      },
    )
    | inr broken ↦ (
      record d { desynced = true },
      rw (try_deframe_one_stop d v e q, broken),
      record {
        ms = [];
        bad = true;
        spec = stop e q broken;
        queued = sym (append-nil d.frames);
        flagged = ground arith;
        kept = record { size = v.size; fits = v.fits };
      },
    )
  ]
]

-- What a read of `bytes` leaves behind: the frames of what waited and arrived are queued, the rest
-- waits, and the flag is up if it was or if the rest is no frame.
pub record Received (d : MessageDeframer) (bytes : List ℕ) (d' : MessageDeframer) : Type 0 where
  pub ms : List OpaqueMessage
  pub bad : Bool
  pub spec : Deframes (pending d ++ bytes) ms (pending d') bad
  pub queued : d'.frames ≡ d.frames ++ ms
  pub flagged : d'.desynced ≡ (d.desynced || bad)
  pub kept : IsValid d'

pub read_received :
    {E : Type 0} (d : MessageDeframer) (bytes : List ℕ)
    → IsValid d
    → d.filled + length bytes ≤ max_wire_size
    → (d' : MessageDeframer) × (read {E = E} d (received bytes) ≡ some (ok (length bytes), d'))
      × Received d bytes d'
unfolding read
read_received d bytes v h =
    let d1 = record d {
      buf = copy_from_slice d.buf d.filled bytes;
      filled = d.filled + length bytes;
    } in
    let (d', runs, l) =
      deframe_loop-Leaves (suc d1.filled) d1 (stored-IsValid d v bytes h) (omega arith) in
    (
      d',
      rw runs,
      record {
        ms = l.ms;
        bad = l.bad;
        spec = rw (pending-stored d v bytes) at l.spec;
        queued = l.queued;
        flagged = l.flagged;
        kept = l.kept;
      },
    )

-- What a failed read leaves alone.
pub record Unharmed (d d' : MessageDeframer) : Type 0 where
  pub waiting : pending d' ≡ pending d
  pub frames_kept : d'.frames ≡ d.frames
  pub flag_kept : d'.desynced ≡ d.desynced
  pub kept : IsValid d'

-- A read that fails passes its error on and, of a valid deframer, loses nothing that had arrived,
-- whatever it scribbled into the room behind.
pub read_failed :
    {E : Type 0} (d : MessageDeframer) (x : E) (bytes : List ℕ)
    → IsValid d
    → d.filled + length bytes ≤ max_wire_size
    → (d' : MessageDeframer) × (read d (failed x bytes) ≡ some (err x, d')) × Unharmed d d'
unfolding read
read_failed d x bytes v h = (
  record d { buf = copy_from_slice d.buf d.filled bytes },
  refl,
  record {
    waiting = pending-failed d v bytes;
    frames_kept = refl;
    flag_kept = refl;
    kept = failed-IsValid d v bytes h;
  },
)
