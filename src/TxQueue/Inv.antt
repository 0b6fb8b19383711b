-- ===== src/TxQueue/Inv.antt =====
-- The representation invariant of `TxQueue`: the indices are in order and inside the buffer.
use paho_cpp_static.Prelude.{
  ℕ, arith, length, List, length-replicate, ◌≡◌, length-append, take, ◌≤◌, ◌-◌, ◌++◌, drop,
  length-take, ◌+◌, length-drop,
}
use paho_cpp_static.TxQueue.{
  compact, empty_queue, consume, commit, clear, write, TxQueue, reserve, length, room, ℕ,
}

pub record IsValid (q : TxQueue) : Type 0 where
  pub storage : length q.buffer ≡ q.capacity
  pub ordered : q.head ≤ q.tail
  pub within : q.tail ≤ q.capacity

pub empty_queue-IsValid : (capacity : ℕ) → IsValid (empty_queue capacity)
unfolding empty_queue
empty_queue-IsValid capacity = omega (arith, length-replicate {A = ℕ} capacity 0)

pub compact-IsValid : (q : TxQueue) → IsValid q → IsValid (compact q)
unfolding compact
compact-IsValid q v = ground (
  arith,
  length-append (take (q.tail - q.head) (drop q.head q.buffer)) (drop (q.tail - q.head) q.buffer),
  length-take (q.tail - q.head) (drop q.head q.buffer),
  length-drop q.head q.buffer,
  length-drop (q.tail - q.head) q.buffer,
)

pub reserve-IsValid : (n : ℕ) (q : TxQueue) → IsValid q → IsValid (reserve n q).1
unfolding reserve
reserve-IsValid n q v = ground (arith, compact-IsValid q)

pub write-IsValid :
    (bytes : List ℕ) (q : TxQueue) → length bytes ≤ room q → IsValid q → IsValid (write bytes q)
unfolding write room
write-IsValid bytes q h v = ground (
  arith,
  length-append (take q.tail q.buffer) (bytes ++ drop (q.tail + length bytes) q.buffer),
  length-append bytes (drop (q.tail + length bytes) q.buffer),
  length-take q.tail q.buffer,
  length-drop (q.tail + length bytes) q.buffer,
)

pub commit-IsValid : (n : ℕ) (q : TxQueue) → IsValid q → IsValid (commit n q)
unfolding commit
commit-IsValid n q v = ground arith

pub consume-IsValid : (n : ℕ) (q : TxQueue) → IsValid q → IsValid (consume n q)
unfolding consume
consume-IsValid n q v = ground arith

pub clear-IsValid : (q : TxQueue) → IsValid q → IsValid (clear q)
unfolding clear
clear-IsValid q v = ground arith
