-- ===== src/Client/Ids.antt =====
-- The packet identifiers and the subscription identifiers: alloc_packet_id, alloc_sub_id.
use paho_cpp_static.Config.{Config}
use paho_cpp_static.Client.State.{Client}
use paho_cpp_static.Client.Tables.{
  next_id, alloc_loop, alloc_sub_id, alloc_packet_id, is_some, packet_id_in_use, find_by_sub_id,
}
use paho_cpp_static.Prelude.{
  true, false, zero, suc, ℕ, ◌+◌, Bool, ◌<◌, ◌≤◌, ◌≡◌, ◌≢◌, arith, ◌-◌, refl, dec_lt, subst, inr,
  inl, ◌⊎◌, ℕ_discrete, all_below, ◌==◌, ◌||◌,
}

-- The counter `k` rounds on.
unfoldable nth_id : ℕ → ℕ → ℕ
nth_id zero n = n
nth_id (suc k) n = nth_id k (next_id n)

next_id-range : (n : ℕ) → n < 65536 → (1 ≤ next_id n) × (next_id n ≤ 65535)
unfolding next_id
next_id-range n h = ground arith

-- What the loop returns, for any number of tries: an id in range that is not in use, and the counter
-- left at it; or 0, when each number that it tried is in use.
alloc_loop_sound :
    (tries : ℕ) (in_use : ℕ → Bool) (n : ℕ)
    → n < 65536
    → (alloc_loop tries in_use n).0 ≢ 0
    → (1 ≤ (alloc_loop tries in_use n).0)
      × ((alloc_loop tries in_use n).0 ≤ 65535)
      × (in_use (alloc_loop tries in_use n).0 ≡ false)
      × ((alloc_loop tries in_use n).1 ≡ (alloc_loop tries in_use n).0)
unfolding alloc_loop
alloc_loop_sound zero in_use n h ne = absurd (ne refl)
alloc_loop_sound (suc tries) in_use n h ne =
    ground (arith, next_id-range n h, alloc_loop_sound tries in_use (next_id n))

-- The counter stays a 16-bit number.
pub alloc_loop_counter :
    (tries : ℕ) (in_use : ℕ → Bool) (n : ℕ) → n < 65536 → (alloc_loop tries in_use n).1 < 65536
unfolding alloc_loop
alloc_loop_counter zero in_use n h = h
alloc_loop_counter (suc tries) in_use n h =
    ground (arith, next_id-range n h, alloc_loop_counter tries in_use (next_id n))

alloc_loop_none :
    (tries : ℕ) (in_use : ℕ → Bool) (n k : ℕ)
    → n < 65536
    → (alloc_loop tries in_use n).0 ≡ 0
    → k < tries
    → in_use (nth_id (suc k) n) ≡ true
unfolding alloc_loop nth_id
alloc_loop_none zero in_use n k h e lt = absurd (omega arith)
alloc_loop_none (suc tries) in_use n zero h e lt = ground (arith, next_id-range n h)
alloc_loop_none (suc tries) in_use n (suc k) h e lt =
    alloc_loop_none tries in_use (next_id n) k (omega (arith, next_id-range n h))
      (ground (arith, next_id-range n h)) (omega arith)

-- Each number from 1 to 65535 is met in the first 65535 rounds.
nth_id-up : (k n : ℕ) → n + k ≤ 65535 → nth_id k n ≡ n + k
unfolding nth_id next_id
nth_id-up zero n h = omega arith
nth_id-up (suc k) n h = ground (arith, nth_id-up k (n + 1))

nth_id-wrap : (j i m n : ℕ) → m ≡ j + 1 + i → n + j ≡ 65535 → i < 65535 → nth_id m n ≡ 1 + i
unfolding nth_id next_id
nth_id-wrap zero i zero n e h lt = absurd (omega arith)
nth_id-wrap zero i (suc m) n e h lt = ground (arith, nth_id-up i 1 (omega arith))
nth_id-wrap (suc j) i zero n e h lt = absurd (omega arith)
nth_id-wrap (suc j) i (suc m) n e h lt =
    ground (arith, nth_id-wrap j i m (n + 1) (omega arith) (omega arith) lt)

meets :
    (id n : ℕ) → n < 65536 → 1 ≤ id → id ≤ 65535 → (k : ℕ) × (k < 65535) × (nth_id (suc k) n ≡ id)
meets id n h lo hi = elim (dec_lt n id) [
  | yes p ↦ (id - n - 1, omega arith, omega (arith, nth_id-up (suc (id - n - 1)) n (omega arith)))
  | no p ↦ (
    65534 + id - n,
    omega arith,
    omega (
      arith,
      nth_id-wrap (65535 - n) (id - 1) (suc (65534 + id - n)) n (omega arith) (omega arith)
          (omega arith),
    ),
  )
]

none_free : (n : ℕ) (p : ℕ → Bool) → ((i : ℕ) → i < n → p i ≡ true) → all_below n p ≡ true
unfolding all_below
none_free zero p h = refl
none_free (suc n) p h =
    ground (arith, h n (omega arith), none_free n p (λ i lt. h i (omega (arith, lt))))

-- Every id from 1 to 65535 is in use.
abbrev pub AllUsed : (ℕ → Bool) → Type 0
AllUsed in_use = all_below 65536 (λ id. id == 0 || in_use id) ≡ true

-- What a search from a counter has to give: an id from 1 to 65535 that is not in use, and the
-- counter left at it; or 0 when there is no such id.
unfoldable pub IsAllocated : (ℕ → Bool) → ℕ → ℕ → Type 0
IsAllocated in_use id counter =
    ((1 ≤ id) × (id ≤ 65535) × (in_use id ≡ false) × (counter ≡ id)) ⊎ ((id ≡ 0) × AllUsed in_use)

used_lem :
    (in_use : ℕ → Bool) (n id : ℕ)
    → n < 65536
    → (alloc_loop 65535 in_use n).0 ≡ 0
    → id < 65536
    → (id == 0 || in_use id) ≡ true
used_lem in_use n zero h e lt = refl
used_lem in_use n (suc i) h e lt =
    let (k, few, at_k) = meets (suc i) n h (omega arith) (omega arith) in
    rw (subst (λ v. in_use v ≡ true) at_k (alloc_loop_none 65535 in_use n k h e few)) (ground arith)

alloc_loop-IsAllocated :
    (in_use : ℕ → Bool) (n : ℕ)
    → n < 65536
    → IsAllocated in_use (alloc_loop 65535 in_use n).0 (alloc_loop 65535 in_use n).1
unfolding IsAllocated
alloc_loop-IsAllocated in_use n h = elim (ℕ_discrete (alloc_loop 65535 in_use n).0 0) [
  | yes e ↦ inr (e, none_free 65536 _ (λ id lt. used_lem in_use n id h e lt))
  | no ne ↦ inl (alloc_loop_sound 65535 in_use n h ne)
]

-- From any 16-bit counter, `alloc_packet_id` returns a packet id from 1 to 65535 that neither an
-- outbound slot nor a pending acknowledgement holds, and leaves the counter at it; it returns 0
-- exactly when each of the 65535 ids is held.
pub alloc_packet_id-IsAllocated :
    (cfg : Config) (c : Client)
    → c.next_packet_id < 65536
    → IsAllocated
        (packet_id_in_use cfg c)
        (alloc_packet_id cfg c).0
        (alloc_packet_id cfg c).1.next_packet_id
unfolding alloc_packet_id
alloc_packet_id-IsAllocated cfg c h =
    alloc_loop-IsAllocated (packet_id_in_use cfg c) c.next_packet_id h

-- From any 16-bit counter, `alloc_sub_id` returns a subscription id from 1 to 65535 that no entry of
-- the table has, and leaves the counter at it; it returns 0 exactly when each of the 65535 is taken.
pub alloc_sub_id-IsAllocated :
    (c : Client)
    → c.next_sub_id < 65536
    → IsAllocated
        (λ id. is_some (find_by_sub_id c.subscriptions id))
        (alloc_sub_id c).0
        (alloc_sub_id c).1.next_sub_id
unfolding alloc_sub_id
alloc_sub_id-IsAllocated c h =
    alloc_loop-IsAllocated (λ id. is_some (find_by_sub_id c.subscriptions id)) c.next_sub_id h
