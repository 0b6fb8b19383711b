-- ===== src/TxQueue/Refine.antt =====
-- A valid queue behaves as the list of its waiting bytes, `peek q`, of which it holds at most
-- `q.capacity`.
use paho_cpp_static.TxQueue.Inv.{IsValid}
use paho_cpp_static.Prelude.{
  ℕ, List, ◌≡◌, drop, ◌-◌, arith, length, true, ◌↔◌, take, length-take, ◌≤◌, ◌+◌, ◌++◌, length-drop,
  [], subst, if◌then◌else◌, ltb, drop_all, take-append, sym, drop-append_le, ◌∙◌, drop-take, ap,
  drop-drop, take-append_len,
}
use paho_cpp_static.TxQueue.{
  compact, peek, consume, commit, reserve, pending, write, room, TxQueue, ℕ,
}

pub length-peek : (q : TxQueue) → IsValid q → length (peek q) ≡ pending q
unfolding peek pending
length-peek q v =
    omega (arith, length-take (q.tail - q.head) (drop q.head q.buffer), length-drop q.head q.buffer)

compact_room : (q : TxQueue) → IsValid q → (compact q).tail ≡ q.tail - q.head
unfolding compact
compact_room q v = ground arith

pub capacity-compact : (q : TxQueue) → (compact q).capacity ≡ q.capacity
unfolding compact
capacity-compact q = ground arith

pub peek-compact : (q : TxQueue) → IsValid q → peek (compact q) ≡ peek q
unfolding peek compact
peek-compact q v = ground (arith, moved)
  where
    n : ℕ
    n = q.tail - q.head

    kept : List ℕ
    kept = take n (drop q.head q.buffer)

    full : length kept ≡ n
    full = omega (arith, length-take n (drop q.head q.buffer), length-drop q.head q.buffer)

    moved : take n (kept ++ drop n q.buffer) ≡ kept
    moved =
        subst (λ k. take k (kept ++ drop n q.buffer) ≡ kept) full
          (take-append kept (drop n q.buffer))

-- `reserve` succeeds exactly when the waiting bytes and the new ones fit the capacity together; it
-- keeps the waiting bytes, and the span at the tail then has room for the new ones exactly when it
-- succeeded.
pub reserve_refines :
    (n : ℕ) (q : TxQueue)
    → IsValid q
    → (((reserve n q).0 ≡ true) ↔ (length (peek q) + n ≤ q.capacity))
      × (peek (reserve n q).1 ≡ peek q)
      × (((reserve n q).0 ≡ true) ↔ (n ≤ room (reserve n q).1))
unfolding reserve room pending
reserve_refines n q v = (
  (
    λ e. ground (arith, length-peek q v, compact_room q v, capacity-compact q),
    λ e. ground (arith, length-peek q v, compact_room q v, capacity-compact q),
  ),
  ground (arith, peek-compact q v),
  (λ e. ground arith, λ h. ground (arith, compact_room q v, capacity-compact q)),
)

-- Bytes that are written into the reserved span and committed stand behind those that waited.
pub commit-write_refines :
    (bytes : List ℕ) (q : TxQueue)
    → IsValid q
    → length bytes ≤ room q
    → peek (commit (length bytes) (write bytes q)) ≡ peek q ++ bytes
unfolding commit write peek room
commit-write_refines bytes q v h =
    rw (moved, cut, back)
      (take-append_len waiting (bytes ++ rest) (length bytes)
        ∙ ap (◌++◌ waiting) (take-append bytes rest))
  where
    old : List ℕ
    old = take q.tail q.buffer

    rest : List ℕ
    rest = drop (q.tail + length bytes) q.buffer

    waiting : List ℕ
    waiting = take (q.tail - q.head) (drop q.head q.buffer)

    moved :
        (if ltb (length bytes) (q.capacity - q.tail) then length bytes else q.capacity - q.tail)
        ≡ length bytes
    moved = ground arith

    cut : drop q.head (old ++ (bytes ++ rest)) ≡ waiting ++ (bytes ++ rest)
    cut =
        drop-append_le q.head old (bytes ++ rest) (omega (arith, length-take q.tail q.buffer))
        ∙ ap (λ l. l ++ (bytes ++ rest)) (drop-take q.head q.tail q.buffer)

    back : q.tail + length bytes - q.head ≡ length waiting + length bytes
    back =
        omega
          (arith, length-take (q.tail - q.head) (drop q.head q.buffer), length-drop q.head q.buffer)

-- `consume` drops as many waiting bytes from the front as it is given, or all of them, and
-- starts again at the front of its buffer exactly when that drains the queue.
pub consume_refines :
    (n : ℕ) (q : TxQueue)
    → IsValid q
    → (peek (consume n q) ≡ drop n (peek q))
      × ((length (peek q) ≤ n) ↔ ((consume n q).head + (consume n q).tail ≡ 0))
unfolding consume peek pending
consume_refines n q v = (
  ground (arith, gone, later),
  (λ e. ground (arith, length-peek q v), λ e. ground (arith, length-peek q v)),
)
  where
    waiting : List ℕ
    waiting = take (q.tail - q.head) (drop q.head q.buffer)

    long : length waiting ≡ q.tail - q.head
    long =
        omega
          (arith, length-take (q.tail - q.head) (drop q.head q.buffer), length-drop q.head q.buffer)

    gone : q.tail - q.head ≤ n → drop n waiting ≡ []
    gone h = drop_all n waiting (omega (arith, long))

    later : take (q.tail - (q.head + n)) (drop (q.head + n) q.buffer) ≡ drop n waiting
    later = sym (
        drop-take n (q.tail - q.head) (drop q.head q.buffer)
        ∙ ap (λ l. take (q.tail - q.head - n) l) (drop-drop n q.head q.buffer)
        ∙ ap (λ (k : ℕ). take k (drop (q.head + n) q.buffer)) (omega arith))
