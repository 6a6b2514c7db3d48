-- ===== src/History/Counter.antt =====
-- The Counter of pending results: its counts after each operation, and its shape.
use proofcoder.Base.{
  ℕ, zero, suc, ◌+◌, ◌-◌, ◌<◌, String, ◌≡◌, refl, true, List, [], ◌∷◌, arith, if◌then◌else◌, ◌==◌,
  eq_iff, eq_refl, is_empty,
}
use proofcoder.Base.Dict.{Dict}
use proofcoder.Protocol.{ToolCall}
use proofcoder.History.{count_of, increment, update, decrement}
use proofcoder.History.Legal.{calls_of}

-- A Counter has one entry for an id, and keeps none at 0.
abbrev pub IsCounter : Dict ℕ → Type 0
IsCounter [] = Unit
IsCounter ((id, n) ∷ d) = (0 < n) × (count_of id d ≡ 0) × IsCounter d

pub count_of-increment :
    (id j : String) (d : Dict ℕ)
    → count_of j (increment id d) ≡ (if id == j then suc (count_of j d) else count_of j d)
unfolding count_of increment
count_of-increment id j [] = ground arith
count_of-increment id j ((k, n) ∷ d) =
    ground (arith, eq_iff id j, eq_iff k id, eq_iff k j, count_of-increment id j d)

pub count_of-update :
    (cs : List ToolCall) (j : String) (d : Dict ℕ)
    → count_of j (update cs d) ≡ count_of j d + calls_of j cs
unfolding update
count_of-update [] j d = omega arith
count_of-update (c ∷ cs) j d =
    ground (arith, count_of-update cs j (increment c.id d), count_of-increment c.id j d)

pub increment-IsCounter : (id : String) (d : Dict ℕ) → IsCounter d → IsCounter (increment id d)
unfolding increment count_of
increment-IsCounter id [] h = omega arith
increment-IsCounter id ((k, n) ∷ d) h =
    ground (arith, eq_iff k id, eq_iff id k, increment-IsCounter id d, count_of-increment id k d)

pub update-IsCounter : (cs : List ToolCall) (d : Dict ℕ) → IsCounter d → IsCounter (update cs d)
unfolding update
update-IsCounter [] d h = h
update-IsCounter (c ∷ cs) d h =
    update-IsCounter cs (increment c.id d) (increment-IsCounter c.id d h)

pub count_of-decrement :
    (id j : String) (d : Dict ℕ)
    → IsCounter d
    → count_of j (decrement id d) ≡ (if id == j then count_of j d - 1 else count_of j d)
unfolding count_of decrement
count_of-decrement id j [] h = ground arith
count_of-decrement id j ((k, zero) ∷ d) h = absurd (omega arith)
count_of-decrement id j ((k, suc zero) ∷ d) h =
    ground (arith, eq_iff k id, eq_iff id j, eq_iff k j, count_of-decrement id j d)
count_of-decrement id j ((k, suc (suc n)) ∷ d) h =
    ground (arith, eq_iff k id, eq_iff id j, eq_iff k j, count_of-decrement id j d)

pub decrement-IsCounter : (id : String) (d : Dict ℕ) → IsCounter d → IsCounter (decrement id d)
unfolding decrement count_of
decrement-IsCounter id [] h = tt
decrement-IsCounter id ((k, zero) ∷ d) h = absurd (omega arith)
decrement-IsCounter id ((k, suc zero) ∷ d) h =
    ground (arith, eq_iff k id, eq_iff id k, decrement-IsCounter id d, count_of-decrement id k d)
decrement-IsCounter id ((k, suc (suc n)) ∷ d) h =
    ground (arith, eq_iff k id, eq_iff id k, decrement-IsCounter id d, count_of-decrement id k d)

pub nothing_counted : (d : Dict ℕ) → is_empty d ≡ true → (id : String) → count_of id d ≡ 0
unfolding count_of
nothing_counted [] e id = refl
nothing_counted (x ∷ d) e id = absurd (ground arith)

-- A counter whose counts are all 0 has no entry.
pub is_empty_of_counts :
    (d : Dict ℕ) → IsCounter d → ((id : String) → count_of id d ≡ 0) → is_empty d ≡ true
unfolding count_of
is_empty_of_counts [] h z = refl
is_empty_of_counts ((k, n) ∷ d) h z = absurd (ground (arith, z k, eq_refl k))
