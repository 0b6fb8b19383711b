-- ===== src/TxQueue/Tests.antt =====
-- A queue whose waiting bytes have to move before more fit, and the theorems on it.
use paho_cpp_static.TxQueue.Refine.{reserve_refines, commit-write_refines, consume_refines}
use paho_cpp_static.TxQueue.{reserve, TxQueue, room, peek, consume, compact, commit, write}
use paho_cpp_static.TxQueue.Inv.{IsValid}
use paho_cpp_static.Prelude.{true, [], ◌∷◌, ◌≡◌, arith, drop, refl, ◌↔◌, length, ◌++◌, ◌≤◌, ◌+◌}

abbrev used : TxQueue
used = record { capacity = 4; buffer = 1 ∷ 2 ∷ 3 ∷ 4 ∷ []; head = 2; tail = 4 }

abbrev used-IsValid : IsValid used
used-IsValid = record { storage = refl; ordered = omega arith; within = omega arith }

abbrev half : TxQueue
half = record { capacity = 4; buffer = 1 ∷ 2 ∷ 3 ∷ 4 ∷ []; head = 1; tail = 2 }

abbrev half-IsValid : IsValid half
half-IsValid = record { storage = refl; ordered = omega arith; within = omega arith }

reserve_moves :
    reserve 2 used ≡ (true, record used { buffer = 3 ∷ 4 ∷ 3 ∷ 4 ∷ []; head = 0; tail = 2 })
unfolding reserve compact
reserve_moves = refl

reserve_refines_example :
    (((reserve 2 used).0 ≡ true) ↔ (length (peek used) + 2 ≤ 4))
    × (peek (reserve 2 used).1 ≡ peek used)
    × (((reserve 2 used).0 ≡ true) ↔ (2 ≤ room (reserve 2 used).1))
reserve_refines_example = reserve_refines 2 used used-IsValid

commit-write_refines_example : peek (commit 2 (write (7 ∷ 8 ∷ []) half)) ≡ peek half ++ (7 ∷ 8 ∷ [])
unfolding room
commit-write_refines_example = commit-write_refines (7 ∷ 8 ∷ []) half half-IsValid fits
  where
    fits : 2 ≤ room half
    fits = omega arith

consume_refines_example :
    (peek (consume 1 used) ≡ drop 1 (peek used))
    × ((length (peek used) ≤ 1) ↔ ((consume 1 used).head + (consume 1 used).tail ≡ 0))
consume_refines_example = consume_refines 1 used used-IsValid
