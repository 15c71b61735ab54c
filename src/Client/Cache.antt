-- ===== src/Client/Cache.antt =====
-- crates/tls/client/src/limited_cache.rs: a map that evicts the oldest insertion. The hash map is the
-- function that it represents, and the capacity of the queue is a field: the number of keys that it
-- holds without growing.
pub mod Valid
pub mod Evict
use tlsn.Common.{
  ℕ, suc, List, [], ◌∷◌, ◌++◌, Option, none, some, Bool, true, false, if◌then◌else◌, ltb, ◌==◌,
  length,
}

pub record LimitedCache (K V : Type 0) : Type 0 where
  pub map : K → Option V
  pub oldest : List K
  pub capacity : ℕ

module _ {K : Type 0} (same : K → K → Bool) where
  -- The first key that is the same, taken out by `position` and `remove`.
  unfoldable pub without : K → List K → List K
  without k [] = []
  without k (x ∷ xs) = let rest = without k xs in if same x k then xs else x ∷ rest

-- `same` is the equality of the keys. `grown` is the queue's choice of a capacity: for the requested
-- one, and for the length that it needs when it is full.
module _ {K V : Type 0} (same : K → K → Bool) (grown : ℕ → ℕ) where
  abbrev pub new : ℕ → LimitedCache K V
  new capacity_order_of_magnitude = record {
    map = λ k. none;
    oldest = [];
    capacity = grown capacity_order_of_magnitude;
  }

  abbrev pub with_entry : K → Option V → (K → Option V) → K → Option V
  with_entry k entry map x = if same x k then entry else map x

  -- `push_back`
  abbrev pub push_back : K → LimitedCache K V → LimitedCache K V
  push_back k c = record c {
    oldest = c.oldest ++ (k ∷ []);
    capacity =
        if ltb (length c.oldest) c.capacity then c.capacity else grown (suc (length c.oldest));
  }

  -- `pop_front` and the removal of that key.
  popped : List K → LimitedCache K V → LimitedCache K V
  popped [] c = c
  popped (o ∷ os) c = record c { oldest = os; map = with_entry o none c.map }

  unfoldable pub evict : LimitedCache K V → LimitedCache K V
  unfolding popped
  evict c = if c.capacity == length c.oldest then popped c.oldest c else c

  inserted : Option V → K → V → LimitedCache K V → LimitedCache K V
  inserted (some old) k v c = record c { map = with_entry k (some v) c.map }
  inserted none k v c = evict (record (push_back k c) { map = with_entry k (some v) c.map })

  unfoldable pub insert : K → V → LimitedCache K V → LimitedCache K V
  unfolding inserted
  insert k v c = inserted (c.map k) k v c

  abbrev pub get : K → LimitedCache K V → Option V
  get k c = c.map k

  removed : Option V → K → LimitedCache K V → Option V × LimitedCache K V
  removed none k c = (none, c)
  removed (some v) k c =
      (some v, record c { map = with_entry k none c.map; oldest = without same k c.oldest })

  unfoldable pub remove : K → LimitedCache K V → Option V × LimitedCache K V
  unfolding removed
  remove k c = removed (c.map k) k c
