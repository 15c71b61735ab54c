-- ===== src/Msgs/Enums/Laws.antt =====
-- What holds of every enumeration whose conversions fit each other.
use tlsn.Common.{ℕ, ◌≡◌, refl, ap, some, List, ◌++◌, arith, IsByte, IsU16}
use tlsn.Msgs.Reader.{Reader}
use tlsn.Msgs.Reader.Unread.{unread, advance}
use tlsn.Msgs.Codec.{get_encoding}
use tlsn.Msgs.Codec.Integers.{RoundTrips, read_u8-Takes, read_u16-Takes}
use tlsn.Msgs.Enums.Defs.{WireEnum}
use tlsn.Msgs.Enums.{read_enum_u8, read_enum_u16, enum_u8_codec, enum_u16_codec}

-- Every number is the number of the case that it is read as: nothing is lost on the wire.
pub record IsLossless {E : Type 0} (w : WireEnum E) : Type 0 where
  pub get-from : (n : ℕ) → w.get (w.from n) ≡ n

module _ {E : Type 0} (w : WireEnum E) where
  -- The values that come back as they were: those that do not put a listed number into `Unknown`.
  abbrev pub IsCanonical : E → Type 0
  IsCanonical x = w.from (w.get x) ≡ x

  pub enum_u8_codec-RoundTrips :
      RoundTrips (enum_u8_codec w) (λ x. IsCanonical x × IsByte (w.get x))
  unfolding read_enum_u8
  enum_u8_codec-RoundTrips = record {
    appends = λ a bytes. refl;
    fills = λ a. omega arith;
    takes = λ a (e, h) r ys u. rw (read_u8-Takes (w.get a) h r ys u, e);
  }

  pub enum_u16_codec-RoundTrips :
      RoundTrips (enum_u16_codec w) (λ x. IsCanonical x × IsU16 (w.get x))
  unfolding read_enum_u16
  enum_u16_codec-RoundTrips = record {
    appends = λ a bytes. refl;
    fills = λ a. omega arith;
    takes = λ a (e, h) r ys u. rw (read_u16-Takes (w.get a) h r ys u, e);
  }

  -- A value of a two-byte enumeration is read back from its encoding, whatever follows, if it is
  -- canonical and its number fits.
  pub read_enum_u16-encode :
      (x : E) (r : Reader) (ys : List ℕ)
      → IsCanonical x
      → IsU16 (w.get x)
      → unread r ≡ get_encoding (enum_u16_codec w) x ++ ys
      → read_enum_u16 w r ≡ some (x, advance 2 r)
  read_enum_u16-encode x r ys canonical fits e =
      enum_u16_codec-RoundTrips.takes x (canonical, fits) r ys e

  -- What is read is canonical.
  pub from-IsCanonical : IsLossless w → (n : ℕ) → IsCanonical (w.from n)
  from-IsCanonical law n = ap w.from (law.get-from n)
