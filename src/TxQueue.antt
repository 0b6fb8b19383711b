-- ===== src/TxQueue.antt =====
-- include/mqtt/tx_queue.hpp: the fixed-capacity byte FIFO for outbound packets. The buffer is the
-- list of its Capacity bytes. A span into it is the list of the bytes that it views; writing through
-- `write_span` is `write`.
pub mod Inv
pub mod Refine
mod Tests
use paho_cpp_static.Prelude.{
  ℕ, ◌+◌, ◌-◌, Bool, false, true, List, ◌++◌, length, take, drop, replicate, ltb, leb, ◌==◌,
  if◌then◌else◌,
}

pub record TxQueue : Type 0 where
  pub capacity : ℕ
  pub buffer : List ℕ
  pub head : ℕ
  pub tail : ℕ

unfoldable pub empty_queue : ℕ → TxQueue
empty_queue capacity = record {
  capacity = capacity;
  buffer = replicate capacity 0;
  head = 0;
  tail = 0;
}

unfoldable pub pending : TxQueue → ℕ
pending q = q.tail - q.head

unfoldable pub is_drained : TxQueue → Bool
is_drained q = q.head == q.tail

-- `std::memmove(buffer_, buffer_ + head_, n)`.
abbrev move_down : List ℕ → ℕ → ℕ → List ℕ
move_down buffer head n = take n (drop head buffer) ++ drop n buffer

unfoldable pub compact : TxQueue → TxQueue
compact q =
    let n = q.tail - q.head in
    if q.head == 0 then q else record q {
      buffer = if ltb 0 n then move_down q.buffer q.head n else q.buffer;
      head = 0;
      tail = n;
    }

unfoldable pub reserve : ℕ → TxQueue → Bool × TxQueue
reserve n q =
    let q' = compact q in
    if ltb q.capacity n
    then (false, q)
    else if leb n (q.capacity - q.tail)
    then (true, q)
    else (leb n (q'.capacity - q'.tail), q')

-- The size of `write_span()`.
unfoldable pub room : TxQueue → ℕ
room q = q.capacity - q.tail

-- The bytes are copied to the front of `write_span()`, which they fit.
unfoldable pub write : List ℕ → TxQueue → TxQueue
write bytes q = record q {
  buffer = take q.tail q.buffer ++ (bytes ++ drop (q.tail + length bytes) q.buffer);
}

unfoldable pub commit : ℕ → TxQueue → TxQueue
commit n q =
    let room = q.capacity - q.tail in record q { tail = q.tail + (if ltb n room then n else room) }

unfoldable pub peek : TxQueue → List ℕ
peek q = take (q.tail - q.head) (drop q.head q.buffer)

unfoldable pub consume : ℕ → TxQueue → TxQueue
consume n q =
    let avail = q.tail - q.head in
    let head = q.head + (if ltb n avail then n else avail) in
    if head == q.tail then record q { head = 0; tail = 0 } else record q { head = head }

unfoldable pub clear : TxQueue → TxQueue
clear q = record q { head = 0; tail = 0 }
