-- ===== src/Msgs/Deframer/Delivery.antt =====
-- Any sequence of reads: however the network cuts the stream, and whatever reads fail in between.
use tlsn.Common.{
  ℕ, ◌+◌, ◌*◌, ◌<◌, ◌≤◌, ◌≡◌, refl, sym, ap, ap₂, subst, ◌∙◌, some, List, [], ◌∷◌, ◌++◌, arith,
  append-nil, append_assoc, length, drop, ok, err, Bool, true, false, ◌||◌, concat, All,
  drop-append, length-replicate,
}
use tlsn.Msgs.Enums.Content.{ContentType, content_type_from}
use tlsn.Msgs.Enums.Version.{ProtocolVersion, protocol_version_from}
use tlsn.Msgs.Message.{
  check_header, too_short_for_header, OpaqueMessage, MessageError, max_wire_size, encode_opaque,
}
use tlsn.Msgs.Message.Verdicts.{frame_of, is_too_short, frame_of-append_err, frame_of-length}
use tlsn.Msgs.Message.Wire.{IsWire, frame_of-encode, length-encode_opaque, check_header_bounds}
use tlsn.Msgs.Deframer.{MessageDeframer, new, read, received, failed}
use tlsn.Msgs.Deframer.Steps.{IsValid, pending, length-pending}
use tlsn.Msgs.Deframer.Stream.{
  Deframes, frame, stop, Deframes-append, Received, read_received, Unharmed, read_failed,
}

-- `Reads d chunks d'`: the reads that succeeded brought `chunks`, and led from `d` to `d'`. The
-- slice that the reader is given has room for no more than fits the buffer.
pub data Reads (E : Type 0) : MessageDeframer → List (List ℕ) → MessageDeframer → Type 0 where
  done : {d : MessageDeframer} → Reads E d [] d
  next :
      {d d' d'' : MessageDeframer} {chunks : List (List ℕ)} (bytes : List ℕ)
      → d.filled + length bytes ≤ max_wire_size
      → read {E = E} d (received bytes) ≡ some (ok (length bytes), d')
      → Reads E d' chunks d''
      → Reads E d (bytes ∷ chunks) d''
  retry :
      {d d' d'' : MessageDeframer} {chunks : List (List ℕ)} (e : E) (bytes : List ℕ)
      → d.filled + length bytes ≤ max_wire_size
      → read {E = E} d (failed e bytes) ≡ some (err e, d')
      → Reads E d' chunks d''
      → Reads E d chunks d''

-- What waits begins no complete frame, and the flag tells whether it can become one.
abbrev pub IsSettled : MessageDeframer → Type 0
IsSettled d = Deframes (pending d) [] (pending d) d.desynced

Deframes-settled :
    {xs rest : List ℕ} {ms : List OpaqueMessage} {bad : Bool}
    → Deframes xs ms rest bad
    → Deframes rest [] rest bad
Deframes-settled (frame m q t) = Deframes-settled t
Deframes-settled (stop e q b) = stop e q b

-- What is no frame stays none, whatever follows.
stays_bad :
    {xs ms-rest rest : List ℕ} {old bad : Bool} {none-yet ms : List OpaqueMessage} (ys : List ℕ)
    → Deframes xs none-yet ms-rest old
    → none-yet ≡ []
    → Deframes (xs ++ ys) ms rest bad
    → (old || bad) ≡ bad
stays_bad ys (frame m q t) n u = cc
stays_bad {xs = xs} {old = true} ys (stop e q b) n (frame m q' t) =
    cc (frame_of-append_err xs ys e q b)
stays_bad {xs = xs} {old = true} {bad = true} ys (stop e q b) n (stop e' q' b') = refl
stays_bad {xs = xs} {old = true} {bad = false} ys (stop e q b) n (stop e' q' b') =
    cc (frame_of-append_err xs ys e q b)
stays_bad {old = false} ys (stop e q b) n u = refl

Received-IsSettled :
    {d d' : MessageDeframer} {bytes : List ℕ} → IsSettled d → Received d bytes d' → IsSettled d'
Received-IsSettled {bytes = bytes} s l =
    rw (l.flagged ∙ stays_bad bytes s refl l.spec) (Deframes-settled l.spec)

module _ {E : Type 0} where
  -- The outcome of a read is the one that `read_received` describes.
  Received-of_read :
      (d d' : MessageDeframer) (bytes : List ℕ) (n : ℕ)
      → IsValid d
      → d.filled + length bytes ≤ max_wire_size
      → read {E = E} d (received bytes) ≡ some (ok n, d')
      → Received d bytes d'
  Received-of_read d d' bytes n v h e =
      let (d'', e', l) = read_received {E = E} d bytes v h in
      let same : d'' ≡ d' = cc in subst (λ x. Received d bytes x) same l

  Unharmed-of_read :
      (d d' : MessageDeframer) (x : E) (bytes : List ℕ)
      → IsValid d
      → d.filled + length bytes ≤ max_wire_size
      → read {E = E} d (failed x bytes) ≡ some (err x, d')
      → Unharmed d d'
  Unharmed-of_read d d' x bytes v h e =
      let (d'', e', u) = read_failed {E = E} d x bytes v h in
      let same : d'' ≡ d' = cc in subst (λ y. Unharmed d y) same u

  -- Whatever the reads bring, and whatever fails in between, the frames are those of the whole stream.
  pub Reads-Deframes :
      {d d' : MessageDeframer} {chunks : List (List ℕ)}
      → Reads E d chunks d'
      → IsValid d
      → IsSettled d
      → (ms : List OpaqueMessage) × Deframes
          (pending d ++ concat chunks)
          ms
          (pending d')
          d'.desynced
        × (d'.frames ≡ d.frames ++ ms)
        × IsValid d'
  Reads-Deframes {d = d} done v s = ([], rw append-nil s, sym (append-nil d.frames), v)
  Reads-Deframes {d = d} (next {d' = d1} {chunks = chunks} bytes h e reads) v s =
      let l = Received-of_read d d1 bytes (length bytes) v h e in
      let (ms, t, q, v') = Reads-Deframes reads l.kept (Received-IsSettled s l) in
      (
        l.ms ++ ms,
        rw append_assoc at (Deframes-append (concat chunks) l.spec t),
        q ∙ ap (λ u. u ++ ms) l.queued ∙ append_assoc d.frames l.ms ms,
        v',
      )
  Reads-Deframes {d = d} (retry {d' = d1} {chunks = chunks} x bytes h e reads) v s =
      let u = Unharmed-of_read d d1 x bytes v h e in
      let settled : IsSettled d1 = rw (u.waiting, u.flag_kept) s in
      let (ms, t, q, v') = Reads-Deframes reads u.kept settled in
      (ms, rw u.waiting at t, q ∙ ap (λ t. t ++ ms) u.frames_kept, v')

-- The bytes of a sequence of messages.
abbrev pub wire : List OpaqueMessage → List ℕ
wire [] = []
wire (m ∷ ms) = encode_opaque m ++ wire ms

-- The frames of a stream that begins with the encodings of `ms` are `ms`, and those of what follows.
Deframes-wire :
    (ms : List OpaqueMessage) (tail : List ℕ) {xs rest : List ℕ} {found : List OpaqueMessage}
    {bad : Bool}
    → All IsWire ms
    → xs ≡ wire ms ++ tail
    → Deframes xs found rest bad
    → (more : List OpaqueMessage) × (found ≡ ms ++ more) × Deframes tail more rest bad
Deframes-wire [] tail {rest = rest} {found = found} {bad = bad} w e t =
    (found, refl, subst (λ x. Deframes x found rest bad) e t)
Deframes-wire (m ∷ ms) tail {xs = xs} (w, ws) e (frame {ms = found} m' q t) =
    let here : xs ≡ encode_opaque m ++ (wire ms ++ tail) =
      e ∙ append_assoc (encode_opaque m) (wire ms) tail in
    let first : frame_of xs ≡ ok m = ap frame_of here ∙ frame_of-encode m (wire ms ++ tail) w in
    let same : m' ≡ m = cc in
    let size : length (encode_opaque m) ≡ 5 + length m'.payload =
      length-encode_opaque m ∙ ap (λ (x : OpaqueMessage). 5 + length x.payload) (sym same) in
    let behind : drop (5 + length m'.payload) xs ≡ wire ms ++ tail =
      ap (drop (5 + length m'.payload)) here
      ∙ drop-append (encode_opaque m) (wire ms ++ tail) _ size in
    let (more, q', t') = Deframes-wire ms tail ws behind t in (more, ap₂ (λ x y. x ∷ y) same q', t')
Deframes-wire (m ∷ ms) tail {xs = xs} (w, ws) e (stop x q b) =
    let here : xs ≡ encode_opaque m ++ (wire ms ++ tail) =
      e ∙ append_assoc (encode_opaque m) (wire ms) tail in
    let first : frame_of xs ≡ ok m = ap frame_of here ∙ frame_of-encode m (wire ms ++ tail) w in
    absurd (cc)

-- A stream that is in step leaves room for the next read: what waits is shorter than a frame can be.
check_header_not_short :
    (typ : ContentType) (version : ProtocolVersion) (len : ℕ) (e : MessageError)
    → check_header typ version len ≡ some e
    → is_too_short e ≡ false
unfolding check_header
check_header_not_short typ version len e h = ground arith

frame_of_too_short :
    (bytes : List ℕ) (e : MessageError)
    → frame_of bytes ≡ err e
    → is_too_short e ≡ true
    → length bytes < max_wire_size
unfolding frame_of
frame_of_too_short [] x q s = omega arith
frame_of_too_short (a ∷ []) x q s = omega arith
frame_of_too_short (a ∷ b ∷ []) x q s = omega arith
frame_of_too_short (a ∷ b ∷ c ∷ []) x q s = omega arith
frame_of_too_short (a ∷ b ∷ c ∷ d ∷ []) x q s = omega arith
frame_of_too_short (a ∷ b ∷ c ∷ d ∷ e ∷ body) x q s = ground (
  arith,
  check_header_bounds (content_type_from a) (protocol_version_from (b * 256 + c)) (d * 256 + e),
  check_header_not_short (content_type_from a) (protocol_version_from (b * 256 + c)) (d * 256 + e)
      x,
)

pub new-IsValid : IsValid new
unfolding new
new-IsValid = record { size = length-replicate {A = ℕ} max_wire_size 0; fits = omega arith }

new-IsSettled : IsSettled new
unfolding new frame_of
new-IsSettled = stop too_short_for_header refl refl

pending-new : pending new ≡ []
unfolding new
pending-new = refl

frames-new : new.frames ≡ []
unfolding new
frames-new = refl

frame_of_nil : frame_of [] ≡ err too_short_for_header
unfolding frame_of
frame_of_nil = refl

Deframes-nil :
    {xs rest : List ℕ} {ms : List OpaqueMessage} {bad : Bool}
    → xs ≡ []
    → Deframes xs ms rest bad
    → (ms ≡ []) × (rest ≡ []) × (bad ≡ false)
Deframes-nil {xs = xs} n (frame m q t) = absurd (omega (arith, ap length n, frame_of-length xs m q))
Deframes-nil {bad = false} n (stop x q b) = (refl, n, refl)
Deframes-nil {bad = true} n (stop x q b) = absurd (cc (ap frame_of n, frame_of_nil))

-- Everything that any reads on a new deframer lead to.
from_new :
    {E : Type 0} {d : MessageDeframer} {chunks : List (List ℕ)}
    → Reads E new chunks d
    → Deframes (concat chunks) d.frames (pending d) d.desynced × IsValid d
from_new {d = d} {chunks = chunks} reads =
    let (found, t, q, v) = Reads-Deframes reads new-IsValid new-IsSettled in
    let same : d.frames ≡ found = q ∙ ap (λ t. t ++ found) frames-new in
    let start : pending new ++ concat chunks ≡ concat chunks =
      ap (λ t. t ++ concat chunks) pending-new in
    (rw same (rw start at t), v)

-- Acceptable frames whose encodings a new deframer reads, in pieces of any size and with any failed
-- reads in between, are queued unchanged and in order; whatever bytes arrived behind them do not
-- disturb them, and are themselves deframed by the specification.
pub delivery :
    {E : Type 0} (d : MessageDeframer) (chunks : List (List ℕ)) (ms : List OpaqueMessage)
    (tail : List ℕ)
    → Reads E new chunks d
    → All IsWire ms
    → concat chunks ≡ wire ms ++ tail
    → (more : List OpaqueMessage) × (d.frames ≡ ms ++ more)
      × Deframes tail more (pending d) d.desynced
delivery d chunks ms tail reads w e = Deframes-wire ms tail w e (from_new reads).0

-- When a new deframer has read exactly the encodings of acceptable frames, in pieces of any size,
-- those frames are queued, no byte waits and the stream is in step.
pub delivery_whole :
    {E : Type 0} (d : MessageDeframer) (chunks : List (List ℕ)) (ms : List OpaqueMessage)
    → Reads E new chunks d
    → All IsWire ms
    → concat chunks ≡ wire ms
    → (d.frames ≡ ms) × (d.filled ≡ 0) × (d.desynced ≡ false)
delivery_whole d chunks ms reads w e =
    let (t, v) = from_new reads in
    let (more, q, t') = Deframes-wire ms [] w (e ∙ sym (append-nil (wire ms))) t in
    let (none_more, none_left, in_step) = Deframes-nil refl t' in
    (
      q ∙ ap (λ u. ms ++ u) none_more ∙ append-nil ms,
      omega (arith, ap length none_left, length-pending d v),
      in_step,
    )

Deframes-room :
    {xs rest : List ℕ} {ms : List OpaqueMessage} {bad : Bool}
    → Deframes xs ms rest bad
    → bad ≡ false
    → length rest < max_wire_size
Deframes-room (frame m q t) s = Deframes-room t s
Deframes-room {xs = xs} {bad = false} (stop x q b) s = frame_of_too_short xs x q b
Deframes-room {bad = true} (stop x q b) s = absurd (cc)

-- After any reads a stream that is in step leaves room in the buffer, so that the next read can
-- bring a byte at least.
pub room_left :
    {E : Type 0} (d : MessageDeframer) (chunks : List (List ℕ))
    → Reads E new chunks d
    → d.desynced ≡ false
    → d.filled < max_wire_size
room_left d chunks reads s =
    let (t, v) = from_new reads in omega (arith, length-pending d v, Deframes-room t s)
