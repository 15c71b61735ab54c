-- ===== src/Client/Cache/Evict.antt =====
-- Each operation keeps the map and the queue in step.
use tlsn.Common.{
  ℕ, suc, ◌<◌, ◌≤◌, ◌≡◌, ◌↔◌, ◌⊎◌, inl, inr, refl, sym, ap, subst, ◌∙◌, List, [], ◌∷◌, ◌++◌, Option,
  none, some, is_some, Bool, true, false, Bool-cases, ltb, lt→ltb, ◌==◌, length, length-append,
  arith,
}
use tlsn.Client.Cache.{
  LimitedCache, with_entry, push_back, popped, evict, inserted, insert, get, without, removed,
  remove,
}
use tlsn.Client.Cache.Valid.{
  member, IsDistinct, IsValid, same-member, member-append, IsDistinct-append, member-without,
}

-- Equality of keys, and a queue that has room for what it was asked for.
module _ {K V : Type 0} (same : K → K → Bool) (grown : ℕ → ℕ)
    (law : (a b : K) → (same a b ≡ true) ↔ (a ≡ b)) (enough : (n : ℕ) → n ≤ grown n) where
  -- A cache whose queue may be full.
  record Filled (c : LimitedCache K V) : Type 0 where
    keys : (k : K) → is_some (c.map k) ≡ member same k c.oldest
    distinct : IsDistinct same c.oldest
    fits : length c.oldest ≤ c.capacity

  popped-IsValid :
      (c : LimitedCache K V) (xs : List K)
      → c.oldest ≡ xs
      → c.capacity ≡ length xs
      → Filled c
      → IsValid same (popped same grown xs c)
  unfolding popped
  popped-IsValid c [] e full f = record {
    keys = f.keys;
    distinct = f.distinct;
    room = rw e (omega arith);
  }
  popped-IsValid c (o ∷ os) e full f =
      let (alone, distinct) = subst (IsDistinct same) e f.distinct in
      record {
        keys = λ x. elim (Bool-cases (same x o)) [
          | inl here ↦ rw here (sym alone ∙ sym (same-member same law x o os here))
          | inr there ↦ rw there (f.keys x ∙ ap (member same x) e ∙ rw there)
        ];
        distinct = distinct;
        room = omega arith;
      }

  evict-IsValid : (c : LimitedCache K V) → Filled c → IsValid same (evict same grown c)
  unfolding evict
  evict-IsValid c f = elim (Bool-cases (c.capacity == length c.oldest)) [
    | inl full ↦ rw full (popped-IsValid c c.oldest refl (ground arith) f)
    | inr free ↦
        rw free (record { keys = f.keys; distinct = f.distinct; room = ground (arith, f.fits) })
  ]

  pushed-Filled :
      (k : K) (v : V) (c : LimitedCache K V)
      → c.map k ≡ none
      → IsValid same c
      → Filled (record (push_back same grown k c) { map = with_entry same grown k (some v) c.map })
  pushed-Filled k v c e s = record {
    keys = λ x. elim (Bool-cases (same x k)) [
      | inl here ↦ rw (here, member-append same law x c.oldest k, here) (ground arith)
      | inr there ↦
          rw (there, member-append same law x c.oldest k, there) (ground (arith, s.keys x))
    ];
    distinct = IsDistinct-append same law c.oldest k s.distinct (sym (s.keys k) ∙ ap is_some e);
    fits = elim (Bool-cases (ltb (length c.oldest) c.capacity)) [
      | inl room ↦ rw room (ground (arith, length-append c.oldest (k ∷ [])))
      | inr full ↦
          rw full (omega (arith, length-append c.oldest (k ∷ []), enough (suc (length c.oldest))))
    ];
  }

  -- `insert` keeps a valid cache valid: the map has the keys of the queue, each once, and the queue has
  -- fewer keys than its capacity.
  pub insert-IsValid :
      (k : K) (v : V) (c : LimitedCache K V)
      → IsValid same c
      → IsValid same (insert same grown k v c)
  unfolding insert inserted
  insert-IsValid k v c s = of_entry (c.map k) refl
    where
      of_entry : (o : Option V) → c.map k ≡ o → IsValid same (inserted same grown o k v c)
      of_entry none e =
          evict-IsValid
            (record (push_back same grown k c) { map = with_entry same grown k (some v) c.map })
            (pushed-Filled k v c e s)
      of_entry (some old) e = record {
        keys = λ x. elim (Bool-cases (same x k)) [
          | inl here ↦
              rw here (sym (same-member same law x k c.oldest here ∙ sym (s.keys k) ∙ ap is_some e))
          | inr there ↦ rw there (s.keys x)
        ];
        distinct = s.distinct;
        room = s.room;
      }

  -- On a valid cache `remove` returns what `get` does, leaves no entry under the key, and keeps all
  -- others and the cache valid.
  pub remove_lem :
      (k : K) (c : LimitedCache K V)
      → IsValid same c
      → ((remove same grown k c).0 ≡ get same grown k c)
        × (get same grown k (remove same grown k c).1 ≡ none)
        × ((x : K) → (x ≡ k) ⊎ (get same grown x (remove same grown k c).1 ≡ get same grown x c))
        × IsValid same (remove same grown k c).1
  unfolding remove removed
  remove_lem k c s = of_entry (c.map k) refl
    where
      of_entry :
          (o : Option V)
          → c.map k ≡ o
          → ((removed same grown o k c).0 ≡ c.map k)
            × ((removed same grown o k c).1.map k ≡ none)
            × ((x : K) → (x ≡ k) ⊎ ((removed same grown o k c).1.map x ≡ c.map x))
            × IsValid same (removed same grown o k c).1
      of_entry none e = (sym e, e, λ x. inr refl, s)
      of_entry (some v) e =
          let (gone, others, distinct, shorter) = member-without same law k c.oldest s.distinct in
          let own : same k k ≡ true = (law k k).1 refl in
          (
            sym e,
            rw own,
            (λ x. elim (Bool-cases (same x k)) [
              | inl here ↦ inl ((law x k).0 here)
              | inr there ↦ inr (rw there)
            ]),
            record {
              keys = λ x. elim (Bool-cases (same x k)) [
                | inl here ↦
                    rw here (sym (same-member same law x k (without same k c.oldest) here ∙ gone))
                | inr there ↦ rw there (s.keys x ∙ sym (others x there))
              ];
              distinct = distinct;
              room = omega (arith, shorter, s.room);
            },
          )

  -- What was inserted is found, in every valid cache whose queue has a capacity of two at least.
  pub get-insert :
      (k : K) (v : V) (c : LimitedCache K V)
      → IsValid same c
      → 2 ≤ c.capacity
      → get same grown k (insert same grown k v c) ≡ some v
  unfolding insert inserted evict popped
  get-insert k v c s h = of_entry (c.map k) refl
    where
      own : same k k ≡ true
      own = (law k k).1 refl

      kept :
          (xs : List K) (m : K → Option V) (old : List K) (n : ℕ)
          → xs ≡ old ++ (k ∷ [])
          → member same k old ≡ false
          → 0 < length old
          → m k ≡ some v
          → (popped same grown xs (record { map = m; oldest = xs; capacity = n })).map k ≡ some v
      kept xs m [] n e h l q = absurd (omega arith)
      kept [] m (o ∷ os) n e h l q = q
      kept (x ∷ xs) m (o ∷ os) n e h l q =
          let first : x ≡ o = cc in
          let other : same k x ≡ false = subst (λ t. same k t ≡ false) (sym first) (ground arith) in
          rw other q

      of_entry : (o : Option V) → c.map k ≡ o → (inserted same grown o k v c).map k ≡ some v
      of_entry (some old) e = rw own
      of_entry none e =
          let room : ltb (length c.oldest) c.capacity ≡ true =
            lt→ltb (length c.oldest) c.capacity (omega (arith, s.room)) in
          rw room (elim (Bool-cases (c.capacity == length (c.oldest ++ (k ∷ [])))) [
            | inr free ↦ rw (free, own)
            | inl full ↦ rw full (
                kept (c.oldest ++ (k ∷ [])) (with_entry same grown k (some v) c.map) c.oldest
                  c.capacity refl (sym (s.keys k) ∙ ap is_some e)
                  (ground (arith, length-append c.oldest (k ∷ []))) (rw own))
          ])
