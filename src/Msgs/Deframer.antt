-- ===== src/Msgs/Deframer.antt =====
-- crates/tls/core/src/msgs/deframer.rs: bytes from the network, cut into frames in a fixed buffer.
pub mod Steps
pub mod Stream
pub mod Delivery
use tlsn.Common.{
  ℕ, zero, suc, ◌+◌, ◌-◌, Option, none, some, List, [], ◌∷◌, ◌++◌, Bool, true, false, not, ◌||◌,
  ltb, ◌==◌, if◌then◌else◌, length, take, drop, replicate, copy_from_slice, Result, ok, err,
}
use tlsn.Msgs.Reader.{Reader, init, used}
use tlsn.Msgs.Message.Verdicts.{is_too_short}
use tlsn.Msgs.Message.{
  OpaqueMessage, MessageError, too_short_for_header, too_short_for_length, read_opaque,
  max_wire_size,
}

-- The field `used` of the source, the number of bytes of `buf` that wait, is `filled` here.
pub record MessageDeframer : Type 0 where
  pub frames : List OpaqueMessage
  pub desynced : Bool
  pub buf : List ℕ
  pub filled : ℕ

pub data BufferContents : Type 0 where
  invalid partial valid : BufferContents

-- What `rd.read(&mut buf[used..])` does: it stores some bytes at the front of the slice, and either
-- reports their number or fails. After a failure the bytes that it stored mean nothing.
pub data ReadOutcome (E : Type 0) : Type 0 where
  received : List ℕ → ReadOutcome E
  failed : E → List ℕ → ReadOutcome E

-- `MessageDeframer::new`
unfoldable pub new : MessageDeframer
new = record { frames = []; desynced = false; buf = replicate max_wire_size 0; filled = 0 }

-- `has_pending`
abbrev pub has_pending : MessageDeframer → Bool
has_pending d = elim d.frames [ [] ↦ ltb 0 d.filled | x ∷ xs ↦ true ]

-- `self.buf.copy_within(taken..self.used, 0)` and the bookkeeping
unfoldable pub buf_consume : ℕ → MessageDeframer → MessageDeframer
buf_consume taken d =
    if ltb taken d.filled
    then record d {
      buf = copy_from_slice d.buf 0 (take (d.filled - taken) (drop taken d.buf));
      filled = d.filled - taken;
    }
    else if taken == d.filled
    then record d { filled = 0 }
    else d

deframe_result :
    MessageDeframer
    → Result (OpaqueMessage × Reader) MessageError
    → BufferContents × MessageDeframer
deframe_result d (ok (m, rd)) =
    (valid, buf_consume (used rd) (record d { frames = d.frames ++ (m ∷ []) }))
deframe_result d (err e) = (if is_too_short e then partial else invalid, d)

unfoldable pub try_deframe_one : MessageDeframer → BufferContents × MessageDeframer
unfolding deframe_result
try_deframe_one d = deframe_result d (read_opaque (init (take d.filled d.buf)))

-- The three arms of the loop; `again` is its next round.
next_round :
    (MessageDeframer → Option MessageDeframer)
    → BufferContents × MessageDeframer
    → Option MessageDeframer
next_round again (invalid, d) = some (record d { desynced = true })
next_round again (valid, d) = again d
next_round again (partial, d) = some d

-- The loop of `read`, on fuel; `none` means that the fuel ran out.
unfoldable pub deframe_loop : ℕ → MessageDeframer → Option MessageDeframer
unfolding next_round
deframe_loop zero d = none
deframe_loop (suc fuel) d = next_round (deframe_loop fuel) (try_deframe_one d)

reported : {E : Type 0} → ℕ → Option MessageDeframer → Option (Result ℕ E × MessageDeframer)
reported n none = none
reported n (some d) = some (ok n, d)

-- `read` and `read_async`, which differ in how they wait. Each round of the loop takes a byte at least,
-- so that as many rounds as there are bytes, and one more, are enough.
unfoldable pub read :
    {E : Type 0} → MessageDeframer → ReadOutcome E → Option (Result ℕ E × MessageDeframer)
unfolding reported
read d (failed e bytes) = some (err e, record d { buf = copy_from_slice d.buf d.filled bytes })
read d (received bytes) =
    let d' = record d {
      buf = copy_from_slice d.buf d.filled bytes;
      filled = d.filled + length bytes;
    } in
    reported (length bytes) (deframe_loop (suc d'.filled) d')
