-- ===== src/Tests/Caches.antt =====
-- crates/tls/client/src/limited_cache.rs on keys that are numbers.
use tlsn.Common.{ℕ, ◌≡◌, ◌≤◌, ◌⊎◌, refl, none, some, Bool, ◌==◌, ==_iff, arith}
use tlsn.Client.Cache
use tlsn.Client.Cache.{LimitedCache, insert, remove, get, evict}
use tlsn.Client.Cache.Valid.{IsValid}
use tlsn.Client.Cache.Evict.{insert-IsValid, remove_lem, get-insert}

-- A queue that takes the capacity that it is asked for.
abbrev exact : ℕ → ℕ
exact n = n

exact_enough : (n : ℕ) → n ≤ exact n
exact_enough n = omega arith

abbrev same : ℕ → ℕ → Bool
same a b = a == b

abbrev two_of_three : LimitedCache ℕ ℕ
two_of_three = insert same exact 5 50 (insert same exact 4 40 (Cache.new same exact 3))

empty-IsValid : IsValid same (Cache.new {V = ℕ} same exact 3)
empty-IsValid = record { keys = λ k. refl; distinct = tt; room = omega arith }

two_of_three-IsValid : IsValid same two_of_three
two_of_three-IsValid =
    insert-IsValid same exact ==_iff exact_enough 5 50
      (insert same exact 4 40 (Cache.new same exact 3))
      (insert-IsValid same exact ==_iff exact_enough 4 40 (Cache.new same exact 3) empty-IsValid)

insert-IsValid_example : IsValid same (insert same exact 6 60 two_of_three)
insert-IsValid_example =
    insert-IsValid same exact ==_iff exact_enough 6 60 two_of_three two_of_three-IsValid

remove_lem_example :
    ((remove same exact 4 two_of_three).0 ≡ get same exact 4 two_of_three)
    × (get same exact 4 (remove same exact 4 two_of_three).1 ≡ none)
    × ((x : ℕ)
        → (x ≡ 4)
          ⊎ (get same exact x (remove same exact 4 two_of_three).1 ≡ get same exact x two_of_three))
    × IsValid same (remove same exact 4 two_of_three).1
remove_lem_example = remove_lem same exact ==_iff exact_enough 4 two_of_three two_of_three-IsValid

capacity_three : 2 ≤ two_of_three.capacity
unfolding insert evict
capacity_three = omega arith

get-insert_example : get same exact 6 (insert same exact 6 60 two_of_three) ≡ some 60
get-insert_example =
    get-insert same exact ==_iff exact_enough 6 60 two_of_three two_of_three-IsValid capacity_three
