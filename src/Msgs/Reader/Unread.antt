-- ===== src/Msgs/Reader/Unread.antt =====
-- A cursor seen as the bytes that it has not read yet.
use tlsn.Common.{
  ℕ, ◌+◌, ◌<◌, ◌≡◌, refl, sym, ap, ◌∙◌, none, some, List, ◌++◌, arith, length, drop, length-append,
  length-drop, take-append, drop-append, drop-drop, ge→ltb, lt→ltb, true, false,
}
use tlsn.Msgs.Reader.{Reader, init, take_bytes, sub, left, any_left}

abbrev pub unread : Reader → List ℕ
unread r = drop r.offs r.buf

abbrev pub advance : ℕ → Reader → Reader
advance n r = record r { offs = r.offs + n }

pub advance-advance : (m n k : ℕ) (r : Reader) → m + n ≡ k → advance n (advance m r) ≡ advance k r
advance-advance m n k r h = ground arith

pub unread-advance :
    (n : ℕ) (xs ys : List ℕ) (r : Reader)
    → length xs ≡ n
    → unread r ≡ xs ++ ys
    → unread (advance n r) ≡ ys
unread-advance n xs ys r h e =
    sym (drop-drop r.offs n (r.offs + n) r.buf refl) ∙ ap (drop n) e ∙ drop-append xs ys n h

left-unread : (r : Reader) → left r ≡ length (unread r)
left-unread r = sym (length-drop r.offs r.buf)

pub take_bytes-unread :
    (n : ℕ) (xs ys : List ℕ) (r : Reader)
    → length xs ≡ n
    → unread r ≡ xs ++ ys
    → take_bytes n r ≡ some (xs, advance n r)
unfolding take_bytes
take_bytes-unread n xs ys r h e =
    rw (ge→ltb (left r) n (omega (arith, left-unread r, ap length e, length-append xs ys)), e)
      (ap (λ t. some (t, advance n r)) (take-append xs ys n h))

pub take_bytes_short : (n : ℕ) (r : Reader) → length (unread r) < n → take_bytes n r ≡ none
unfolding take_bytes
take_bytes_short n r h = rw (lt→ltb (left r) n (omega (arith, left-unread r)))

pub sub-unread :
    (n : ℕ) (xs ys : List ℕ) (r : Reader)
    → length xs ≡ n
    → unread r ≡ xs ++ ys
    → sub n r ≡ some (init xs, advance n r)
unfolding sub
sub-unread n xs ys r h e = rw (take_bytes-unread n xs ys r h e)

pub sub_short : (n : ℕ) (r : Reader) → length (unread r) < n → sub n r ≡ none
unfolding sub
sub_short n r h = rw (take_bytes_short n r h)

-- With no bytes unread the cursor is at its end, and the other way round.
pub any_left_end : (r : Reader) → length (unread r) ≡ 0 → any_left r ≡ false
any_left_end r h = ge→ltb r.offs (length r.buf) (omega (arith, left-unread r))

pub any_left_more : (r : Reader) → 0 < length (unread r) → any_left r ≡ true
any_left_more r h = lt→ltb r.offs (length r.buf) (omega (arith, left-unread r))
