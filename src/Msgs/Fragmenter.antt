-- ===== src/Msgs/Fragmenter.antt =====
-- crates/tls/core/src/msgs/fragmenter.rs: long messages, cut for the wire.
pub mod Chunks
pub mod Pieces
pub mod Transfer
use tlsn.Common.{
  ℕ, zero, suc, ◌+◌, ◌-◌, Option, none, some, List, [], ◌∷◌, ◌++◌, map, Bool, ◌&&◌, leb,
  if◌then◌else◌, length, take, drop, Result, ok, err,
}
use tlsn.Msgs.Message.{PlainMessage}
use tlsn.Msgs.Enums.Content.{ContentType}
use tlsn.Msgs.Enums.Version.{ProtocolVersion}

abbrev pub max_fragment_len : ℕ
max_fragment_len = 16384

abbrev pub packet_overhead : ℕ
packet_overhead = 1 + 2 + 2

abbrev pub max_fragment_size : ℕ
max_fragment_size = max_fragment_len + packet_overhead

pub record MessageFragmenter : Type 0 where
  pub max_frag : ℕ

pub data FragmenterError : Type 0 where
  bad_max_fragment_size : FragmenterError

-- `set_max_fragment_size`: a refused size leaves the fragmenter as it was.
unfoldable pub set_max_fragment_size :
    Option ℕ → MessageFragmenter → Result (Unit {0}) FragmenterError × MessageFragmenter
set_max_fragment_size none f = (ok tt, record f { max_frag = max_fragment_len })
set_max_fragment_size (some sz) f =
    if leb 32 sz && leb sz max_fragment_size
    then (ok tt, record f { max_frag = sz - packet_overhead })
    else (err bad_max_fragment_size, f)

made :
    Result (Unit {0}) FragmenterError × MessageFragmenter → Result MessageFragmenter FragmenterError
made (ok u, f) = ok f
made (err e, f) = err e

-- `MessageFragmenter::new`
unfoldable pub new : Option ℕ → Result MessageFragmenter FragmenterError
unfolding made
new size = made (set_max_fragment_size size (record { max_frag = 0 }))

-- `slice::chunks` of the standard library, for a size that is not 0, as all that `new` admits are.
-- Each round takes an element at least.
chunks_loop : ℕ → ℕ → List ℕ → List (List ℕ)
chunks_loop zero n xs = []
chunks_loop (suc fuel) n [] = []
chunks_loop (suc fuel) n (x ∷ xs) = take n (x ∷ xs) ∷ chunks_loop fuel n (drop n (x ∷ xs))

unfoldable pub chunks : ℕ → List ℕ → List (List ℕ)
unfolding chunks_loop
chunks n xs = chunks_loop (length xs) n xs

abbrev pub piece : ContentType → ProtocolVersion → List ℕ → PlainMessage
piece typ version chunk = record { typ = typ; version = version; payload = chunk }

-- `fragment`: the messages are appended to `out`.
unfoldable pub fragment : MessageFragmenter → PlainMessage → List PlainMessage → List PlainMessage
fragment f msg out =
    if leb (length msg.payload) f.max_frag
    then out ++ (msg ∷ [])
    else out ++ map (piece msg.typ msg.version) (chunks f.max_frag msg.payload)

-- `fragment_borrow`, which has no short path; a borrowed message has the fields of an owned one.
unfoldable pub fragment_borrow :
    MessageFragmenter
    → ContentType
    → ProtocolVersion
    → List ℕ
    → List PlainMessage
    → List PlainMessage
fragment_borrow f typ version payload out =
    out ++ map (piece typ version) (chunks f.max_frag payload)
