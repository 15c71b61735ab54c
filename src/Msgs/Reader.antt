-- ===== src/Msgs/Reader.antt =====
-- The cursor `Reader` of crates/tls/core/src/msgs/codec.rs. A reading function returns `none` or
-- the value with the moved cursor: a cursor that failed is not looked at again by any caller.
pub mod Unread
use tlsn.Common.{
  ℕ, ◌+◌, ◌-◌, Option, none, some, List, Bool, length, take, drop, ltb, if◌then◌else◌,
}

pub record Reader : Type 0 where
  pub buf : List ℕ
  pub offs : ℕ

-- What a reading function of the source is: `fn(&mut Reader) -> Option<A>`.
abbrev pub Read {ℓ} : Type ℓ → Type ℓ
Read A = Reader → Option (A × Reader)

infixl 5 ◌>>=◌
abbrev pub ◌>>=◌ {ℓ κ} :
    {A : Type ℓ} {B : Type κ}
    → Option (A × Reader)
    → (A × Reader → Option (B × Reader))
    → Option (B × Reader)
none >>= f = none
some p >>= f = f p

-- `Reader::init`
abbrev pub init : List ℕ → Reader
init bytes = record { buf = bytes; offs = 0 }

-- `Reader::rest`
abbrev pub rest : Reader → List ℕ × Reader
rest r = (drop r.offs r.buf, record r { offs = length r.buf })

-- `Reader::left`; in the source the cursor never passes the end, so the difference is exact.
abbrev pub left : Reader → ℕ
left r = length r.buf - r.offs

-- `Reader::take`
unfoldable pub take_bytes : ℕ → Read (List ℕ)
take_bytes len r =
    if ltb (left r) len
    then none
    else some (take len (drop r.offs r.buf), record r { offs = r.offs + len })

-- `Reader::any_left`
abbrev pub any_left : Reader → Bool
any_left r = ltb r.offs (length r.buf)

-- `Reader::used`
abbrev pub used : Reader → ℕ
used r = r.offs

sub_of : Option (List ℕ × Reader) → Option (Reader × Reader)
sub_of none = none
sub_of (some (bytes, r)) = some (init bytes, r)

-- `Reader::sub`
unfoldable pub sub : ℕ → Read Reader
unfolding sub_of
sub len r = sub_of (take_bytes len r)
