-- ===== src/Msgs/Handshake.antt =====
-- crates/tls/core/src/msgs/handshake.rs: the frame of a handshake message. The body, one of some
-- twenty payload types, is read by a parameter, as far as the check that nothing of it is left.
pub mod Frame
use tlsn.Common.{ℕ, Option, none, some, Bool, true, false, if◌then◌else◌}
use tlsn.Msgs.Reader.{Reader, Read, sub, any_left, ◌>>=◌}
use tlsn.Msgs.Codec.{read_u24}
use tlsn.Msgs.Enums.{read_enum_u8}
use tlsn.Msgs.Enums.Handshakes.{HandshakeType, handshake_type_enum}
use tlsn.Msgs.Enums.Version.{ProtocolVersion}

-- `B` is `HandshakePayload`. The type goes in and comes out, since a `ServerHello` can turn out to be
-- a `HelloRetryRequest`.
abbrev pub ReadBody : Type 0 → Type 0
ReadBody B = HandshakeType → ProtocolVersion → Read (HandshakeType × B)

pub record HandshakeMessagePayload (B : Type 0) : Type 0 where
  pub typ : HandshakeType
  pub payload : B

-- `if sub.any_left() { None } else { Some(Self { typ, payload }) }`
unfoldable pub whole_body :
    {B : Type 0}
    → Reader
    → (HandshakeType × B) × Reader
    → Option (HandshakeMessagePayload B × Reader)
whole_body r ((typ, payload), inner) =
    if any_left inner then none else some (record { typ = typ; payload = payload }, r)

module _ {B : Type 0} (read_body : ReadBody B) where
  -- `HandshakeMessagePayload::read_version`
  unfoldable pub read_version : ProtocolVersion → Read (HandshakeMessagePayload B)
  unfolding whole_body
  read_version vers r = do
    (typ, r1) ← read_enum_u8 handshake_type_enum r
    (len, r2) ← read_u24 r1
    (inner, r3) ← sub len r2
    p ← read_body typ vers inner
    whole_body r3 p
