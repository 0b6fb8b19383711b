-- ===== src/Client/Atomic.antt =====
-- Queueing that fails leaves the client as it was.
use paho_cpp_static.Config.{Config}
use paho_cpp_static.Error.{value, error, Result, Error, is_ok}
use paho_cpp_static.Prelude.{Bool-cases, ◌≡◌, inr, inl, false, ℕ, List, ltb, length, arith, refl}
use paho_cpp_static.TxQueue.Inv.{IsValid}
use paho_cpp_static.TxQueue.Refine.{reserve_refines}
use paho_cpp_static.TxQueue.{peek, reserve}
use paho_cpp_static.Client.Transmit.{enqueue, enqueue_sized, commit_encoded}
use paho_cpp_static.Client.State.{Client}

-- The same client, but for the place of the waiting bytes in the queue's buffer and the counter of
-- the packet ids.
abbrev pub Untouched : Client → Client → Type 0
Untouched c d =
    (peek d.tx ≡ peek c.tx) × (record d { tx = c.tx; next_packet_id = c.next_packet_id } ≡ c)

pub record IsAtomic (c : Client) (r : Error × Client) : Type 0 where
  pub refused : is_ok r.0 ≡ false → Untouched c r.1

pub enqueue-IsAtomic : (bytes : List ℕ) (c : Client) → IsValid c.tx → IsAtomic c (enqueue bytes c)
unfolding enqueue
enqueue-IsAtomic bytes c v =
    let same = (reserve_refines (length bytes) c.tx v).1 in
    record {
      refused = λ h. elim (Bool-cases (reserve (length bytes) c.tx).0) [
        | inl e ↦ absurd (ground (arith, h, e))
        | inr e ↦ rw e (same, refl)
      ];
    }

pub commit_encoded-IsAtomic :
    (r : Result (List ℕ)) (n : ℕ) (c : Client)
    → IsValid c.tx
    → IsAtomic c (commit_encoded r (reserve n c.tx).1 c)
unfolding commit_encoded
commit_encoded-IsAtomic (value bytes) n c v = record { refused = λ h. absurd (ground (arith, h)) }
commit_encoded-IsAtomic (error e) n c v = record {
  refused = λ h. ((reserve_refines n c.tx v).1, refl);
}

pub enqueue_sized-IsAtomic :
    (cfg : Config) (size : ℕ) (encode : ℕ → Result (List ℕ)) (c : Client)
    → IsValid c.tx
    → IsAtomic c (enqueue_sized cfg size encode c)
unfolding enqueue_sized
enqueue_sized-IsAtomic cfg size encode c v = elim (Bool-cases (ltb cfg.tx_buffer_size size)) [
  | inl e ↦ rw e (record { refused = λ h. (refl, refl) })
  | inr e ↦ elim (Bool-cases (reserve size c.tx).0) [
    | inl f ↦ rw (e, f) (commit_encoded-IsAtomic (encode size) size c v)
    | inr f ↦ rw (e, f) (record { refused = λ h. ((reserve_refines size c.tx v).1, refl) })
  ]
]
