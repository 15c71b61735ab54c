-- ===== src/Client/Cache/Valid.antt =====
-- The keys of the map are those of the queue, each once, and the queue keeps a place free.
use tlsn.Common.{
  ◌-◌, ◌≤◌, ◌≡◌, ◌↔◌, inl, inr, refl, sym, ap, subst, ◌∙◌, List, [], ◌∷◌, ◌++◌, is_some, Bool, true,
  false, ◌||◌, Bool-cases, length, arith,
}
use tlsn.Client.Cache.{LimitedCache, without}

module _ {K : Type 0} (same : K → K → Bool) where
  abbrev pub member : K → List K → Bool
  member k [] = false
  member k (x ∷ xs) = same k x || member k xs

  abbrev pub IsDistinct : List K → Type 0
  IsDistinct [] = Unit {0}
  IsDistinct (x ∷ xs) = (member x xs ≡ false) × IsDistinct xs

  pub record IsValid {V : Type 0} (c : LimitedCache K V) : Type 0 where
    pub keys : (k : K) → is_some (c.map k) ≡ member k c.oldest
    pub distinct : IsDistinct c.oldest
    pub room : length c.oldest ≤ c.capacity - 1

-- Equality of keys, as `Eq` has it.
module _ {K : Type 0} (same : K → K → Bool) (law : (a b : K) → (same a b ≡ true) ↔ (a ≡ b)) where
  pub same-member : (a b : K) (xs : List K) → same a b ≡ true → member same a xs ≡ member same b xs
  same-member a b xs h = ap (λ t. member same t xs) ((law a b).0 h)

  pub member-append :
      (k : K) (xs : List K) (y : K)
      → member same k (xs ++ (y ∷ [])) ≡ (member same k xs || same k y)
  member-append k [] y = ground arith
  member-append k (x ∷ xs) y = rw (member-append k xs y) (ground arith)

  -- Equality goes both ways.
  pub differs : (a b : K) → same a b ≡ false → same b a ≡ false
  differs a b h = elim (Bool-cases (same b a)) [
    | inr q ↦ q
    | inl q ↦ let e : a ≡ b = sym ((law b a).0 q) in absurd (cc ((law a b).1 e))
  ]

  pub IsDistinct-append :
      (xs : List K) (y : K)
      → IsDistinct same xs
      → member same y xs ≡ false
      → IsDistinct same (xs ++ (y ∷ []))
  IsDistinct-append [] y d h = (refl, tt)
  IsDistinct-append (x ∷ xs) y (n, d) h = (
    rw (member-append x xs y, n, differs y x (ground arith)),
    IsDistinct-append xs y d (ground arith),
  )

  -- Without its key, a list has all others.
  pub member-without :
      (k : K) (xs : List K)
      → IsDistinct same xs
      → (member same k (without same k xs) ≡ false)
        × ((x : K) → same x k ≡ false → member same x (without same k xs) ≡ member same x xs)
        × IsDistinct same (without same k xs)
        × (length (without same k xs) ≤ length xs)
  unfolding without
  member-without k [] d = (refl, λ x h. refl, tt, omega arith)
  member-without k (y ∷ ys) (n, d) = elim (Bool-cases (same y k)) [
    | inl here ↦ rw here (
      sym (same-member y k ys here) ∙ n,
      (λ x h.
          let e : y ≡ k = (law y k).0 here in
          let other : same x y ≡ false = subst (λ t. same x t ≡ false) (sym e) h in rw other),
      d,
      omega arith,
    )
    | inr there ↦
        let (gone, others, distinct, shorter) = member-without k ys d in
        rw there (
          rw (differs y k there, gone),
          (λ x h. ap (λ t. same x y || t) (others x h)),
          (others y there ∙ n, distinct),
          omega (arith, shorter),
        )
  ]
