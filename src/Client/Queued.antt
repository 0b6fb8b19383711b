-- ===== src/Client/Queued.antt =====
-- What waits for the transport before and after a packet is queued.
use paho_cpp_static.Error.{ok}
use paho_cpp_static.Prelude.{◌≡◌, ◌++◌, true, ℕ, List, length, arith, ◌≤◌, ◌+◌, refl, ◌∙◌, ap}
use paho_cpp_static.TxQueue.Inv.{IsValid, reserve-IsValid, write-IsValid, commit-IsValid}
use paho_cpp_static.TxQueue.Refine.{reserve_refines, commit-write_refines, capacity-compact}
use paho_cpp_static.TxQueue.{peek, reserve, write, commit, room, TxQueue}
use paho_cpp_static.Client.Transmit.{enqueue, put_bytes}
use paho_cpp_static.Client.State.{Client}

capacity-reserve : (n : ℕ) (q : TxQueue) → (reserve n q).1.capacity ≡ q.capacity
unfolding reserve
capacity-reserve n q = ground (arith, capacity-compact q)

capacity-put : (l : List ℕ) (r : TxQueue) → (commit (length l) (write l r)).capacity ≡ r.capacity
unfolding commit write
capacity-put l r = refl

-- Bytes put where they have been reserved.
pub put_bytes_lem :
    (bytes : List ℕ) (n : ℕ) (q : TxQueue)
    → IsValid q
    → length bytes ≤ n
    → (reserve n q).0 ≡ true
    → (peek (put_bytes bytes (reserve n q).1) ≡ peek q ++ bytes)
      × IsValid (put_bytes bytes (reserve n q).1)
      × ((put_bytes bytes (reserve n q).1).capacity ≡ q.capacity)
unfolding put_bytes
put_bytes_lem bytes n q v short e =
    let valid = reserve-IsValid n q v in
    let (fits, same, spanned) = reserve_refines n q v in
    let space : length bytes ≤ room (reserve n q).1 = omega (arith, short, spanned.0 e) in
    (
      commit-write_refines bytes (reserve n q).1 valid space ∙ ap (λ l. l ++ bytes) same,
      commit-IsValid (length bytes) (write bytes (reserve n q).1)
          (write-IsValid bytes (reserve n q).1 space valid),
      capacity-put bytes (reserve n q).1 ∙ capacity-reserve n q,
    )

-- enqueue() succeeds exactly when the packet fits behind what waits.
pub enqueue_lem :
    (bytes : List ℕ) (c : Client)
    → IsValid c.tx
    → length (peek c.tx) + length bytes ≤ c.tx.capacity
    → ((enqueue bytes c).0 ≡ ok)
      × (peek (enqueue bytes c).1.tx ≡ peek c.tx ++ bytes)
      × IsValid (enqueue bytes c).1.tx
      × ((enqueue bytes c).1.tx.capacity ≡ c.tx.capacity)
unfolding enqueue
enqueue_lem bytes c v h =
    let e : (reserve (length bytes) c.tx).0 ≡ true =
      (reserve_refines (length bytes) c.tx v).0.1 h in
    let (queued, valid, capacity) = put_bytes_lem bytes (length bytes) c.tx v (omega arith) e in
    rw e (refl, queued, valid, capacity)
