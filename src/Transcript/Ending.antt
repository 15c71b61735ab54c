-- ===== src/Transcript/Ending.antt =====
-- crates/core/src/transcript/tls/builder.rs: how its functions end, and the slices that they take.
use tlsn.Common.{
  ℕ, ◌-◌, ◌≤◌, ◌≡◌, ◌≢◌, refl, List, Option, none, some, Result, ok, err, ◌&&◌, leb, if◌then◌else◌,
  length, take, drop, arith,
}
use tlsn.Transcript.{TlsTranscriptError}

-- How a call ends: it returns, it panics, or the fuel of a loop in it ran out.
pub data Ending {ℓ} (A : Type ℓ) : Type ℓ where
  ended : A → Ending A
  panicked unfinished : Ending A

abbrev pub Fallible : Type 0 → Type 0
Fallible A = Ending (Result A TlsTranscriptError)

infixl 5 ◌>>=◌
abbrev pub ◌>>=◌ : {A B : Type 0} → Fallible A → (A → Fallible B) → Fallible B
ended (ok a) >>= f = f a
ended (err e) >>= f = ended (err e)
panicked >>= f = panicked
unfinished >>= f = unfinished

-- A loop with its fuel.
abbrev pub looped : {A : Type 0} → Option (Result A TlsTranscriptError) → Fallible A
looped none = unfinished
looped (some r) = ended r

-- `bytes[from..to]`
unfoldable pub slice : ℕ → ℕ → List ℕ → Fallible (List ℕ)
slice from to bytes =
    if leb from to && leb to (length bytes)
    then ended (ok (drop from (take to bytes)))
    else panicked

-- `bytes[from..]`
unfoldable pub slice_from : ℕ → List ℕ → Fallible (List ℕ)
slice_from from bytes = if leb from (length bytes) then ended (ok (drop from bytes)) else panicked

-- `a - b` as an index: a difference below zero panics, at once or, where overflow is not checked, as an
-- index out of range.
unfoldable pub minus : ℕ → ℕ → Fallible ℕ
minus a b = if leb b a then ended (ok (a - b)) else panicked

pub slice_lem :
    (from to : ℕ) (bytes : List ℕ)
    → from ≤ to
    → to ≤ length bytes
    → slice from to bytes ≡ ended (ok (drop from (take to bytes)))
unfolding slice
slice_lem from to bytes h k = ground arith

pub slice_from_lem :
    (from : ℕ) (bytes : List ℕ)
    → from ≤ length bytes
    → slice_from from bytes ≡ ended (ok (drop from bytes))
unfolding slice_from
slice_from_lem from bytes h = ground arith

pub minus_lem : (a b : ℕ) → b ≤ a → minus a b ≡ ended (ok (a - b))
unfolding minus
minus_lem a b h = ground arith

pub >>=-eq-ok :
    {A B : Type 0} (m : Fallible A) (f : A → Fallible B) {b : B}
    → (m >>= f) ≡ ended (ok b)
    → (a : A) × (m ≡ ended (ok a)) × (f a ≡ ended (ok b))
>>=-eq-ok (ended (ok a)) f e = (a, refl, e)
>>=-eq-ok (ended (err x)) f e = absurd (cc)
>>=-eq-ok panicked f e = absurd (cc)
>>=-eq-ok unfinished f e = absurd (cc)

-- A call that returns an error, or a value with `Q`, or that panics where `P` holds.
abbrev pub Ends : (P : Type 0) {A : Type 0} (Q : A → Type 0) → Fallible A → Type 0
Ends P Q (ended (ok a)) = Q a
Ends P Q (ended (err e)) = Unit
Ends P Q panicked = P
Ends P Q unfinished = ⊥

abbrev pub Anything : {A : Type 0} → A → Type 0
Anything a = Unit {0}

pub Ends-cases :
    (P : Type 0) {A : Type 0} (Q : A → Type 0) (m : Fallible A)
    → Ends P Q m
    → (m ≢ unfinished) × ((m ≡ panicked) → P)
Ends-cases P Q (ended (ok a)) h = (λ e. cc, λ e. absurd (cc))
Ends-cases P Q (ended (err x)) h = (λ e. cc, λ e. absurd (cc))
Ends-cases P Q panicked h = (λ e. cc, λ e. h)
Ends-cases P Q unfinished h = absurd h

module _ (P : Type 0) where
  pub Ends->>= :
      {A B : Type 0} (Q : A → Type 0) (R : B → Type 0) (m : Fallible A) (f : A → Fallible B)
      → Ends P Q m
      → ((a : A) → Q a → Ends P R (f a))
      → Ends P R (m >>= f)
  Ends->>= Q R (ended (ok a)) f h k = k a h
  Ends->>= Q R (ended (err e)) f h k = tt
  Ends->>= Q R panicked f h k = h
  Ends->>= Q R unfinished f h k = absurd h

  Ends-ended : {A : Type 0} (r : Result A TlsTranscriptError) → Ends P Anything (ended r)
  Ends-ended (ok a) = tt
  Ends-ended (err e) = tt

  pub Ends-looped :
      {A : Type 0} (o : Option (Result A TlsTranscriptError))
      → o ≢ none
      → Ends P Anything (looped o)
  Ends-looped none h = absurd (h refl)
  Ends-looped (some (ok a)) h = tt
  Ends-looped (some (err e)) h = tt

  -- A step that may fail, before others.
  pub then_ended :
      {A B : Type 0} (R : B → Type 0) (r : Result A TlsTranscriptError) (f : A → Fallible B)
      → ((a : A) → Ends P R (f a))
      → Ends P R (ended r >>= f)
  then_ended R r f k = Ends->>= Anything R (ended r) f (Ends-ended r) (λ a q. k a)
