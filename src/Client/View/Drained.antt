-- ===== src/Client/View/Drained.antt =====
-- The loop of drain_rx ends: its rounds are bounded by the bytes received.
use paho_cpp_static.Config.{Config}
use paho_cpp_static.Error.{value, Result-cases}
use paho_cpp_static.Prelude.{
  Bool-cases, Option-cases, ◌≡◌, inl, none, zero, inr, [], suc, List, ℕ, ◌≤◌, arith, ◌<◌, length,
  is_empty, take, length-drop, drop, refl,
}
use paho_cpp_static.Client.View.{View, Closed, view, List, ℕ, Config, length, ◌∷◌, drop}
use paho_cpp_static.Client.View.Drain.{handle_packet-Keeps}
use paho_cpp_static.Client.Drain.{drain_loop, drain_round, drain_rx, shift_rx, handle_packet}
use paho_cpp_static.Codec.Decode.{PacketPeek, peek_header}
use paho_cpp_static.Client.State.{Setup, Sys}

-- No more than `n` bytes are received and unread.
record IsShort (n : ℕ) (v : View) : Type 0 where
  short : length v.rx ≤ n
  counters : (v.next_packet_id < 65536) × (v.next_sub_id < 65536)

IsShort-Closed : (cfg : Config) (n : ℕ) → Closed cfg (IsShort n)
IsShort-Closed cfg n = record {
  counters = λ v b. b.counters;
  on_reserve = λ m v b. ground arith;
  on_queue = λ bytes m v short e b. ground arith;
  on_consume = λ m v b. ground arith;
  on_clear = λ v b. ground arith;
  on_drop = λ m v b. ground (arith, length-drop m v.rx);
  on_empty = λ v b. ground arith;
  on_fill = λ i slot v lt free busy short fresh b. ground arith;
  on_release = λ i v b. ground arith;
  on_release_all = λ v b. ground arith;
  on_pubrel = λ i bytes v busy short b. ground arith;
  on_touch = λ slots v same b. ground arith;
  on_record = λ id v new room b. ground arith;
  on_forget = λ id v b. ground arith;
  on_forget_all = λ v b. ground arith;
  on_same_subs = λ table v same b. ground arith;
  on_enter = λ e v new short room b. ground arith;
  on_erase = λ sid v b. ground arith;
  on_ack = λ a v room few fresh b. ground arith;
  on_ack_done = λ id expected v b. ground arith;
  on_acks_cleared = λ v b. ground arith;
  on_counter = λ m v lt b. ground arith;
  on_sub_counter = λ m v lt b. ground arith;
}

-- A packet has a first byte at least.
peek_header_total :
    (bytes : List ℕ) (p : PacketPeek) → peek_header bytes ≡ value p → 1 ≤ p.total_bytes
unfolding peek_header
peek_header_total [] p e = cc
peek_header_total (first ∷ rest) p e = ground (arith, e)

module _ (u : Setup) (depth : ℕ) where
  abbrev W : Type 0
  W = Sys u.env.World

  -- A round that goes on has taken a packet off the buffer.
  drain_round_shrinks :
      (p : PacketPeek) (s : W)
      → 1 ≤ p.total_bytes
      → (s.client.next_packet_id < 65536) × (s.client.next_sub_id < 65536)
      → (drain_round u depth p s).0 ≡ none
      → (length (drain_round u depth p s).1.client.rx < length s.client.rx)
        × ((drain_round u depth p s).1.client.next_packet_id < 65536)
        × ((drain_round u depth p s).1.client.next_sub_id < 65536)
  unfolding drain_round shift_rx
  drain_round_shrinks p s positive counters e =
      let body = take p.header.remaining_length (drop p.header_bytes s.client.rx) in
      let r = handle_packet u depth p.header body s in
      let kept : IsShort (length s.client.rx) (view r.1.client) =
        (handle_packet-Keeps u (IsShort (length s.client.rx)) (IsShort-Closed u.cfg _) depth
            p.header body).at
          s (record { short = omega arith; counters = counters }) in
      ground (arith, kept, e, length-drop p.total_bytes r.1.client.rx)

  same_rounds :
      (a b : ℕ) (s : W)
      → (s.client.next_packet_id < 65536) × (s.client.next_sub_id < 65536)
      → length s.client.rx < a
      → length s.client.rx < b
      → drain_loop u depth a s ≡ drain_loop u depth b s
  unfolding drain_loop
  same_rounds zero b s counters ha hb = absurd (omega arith)
  same_rounds (suc a) zero s counters ha hb = absurd (omega arith)
  same_rounds (suc a) (suc b) s counters ha hb = elim (Bool-cases (is_empty s.client.rx)) [
    | inl q ↦ rw q refl
    | inr q ↦ elim (Result-cases (peek_header s.client.rx)) [
      | inr (e, o) ↦ rw (q, o) refl
      | inl (p, o) ↦ elim (Option-cases (drain_round u depth p s).0) [
        | inr (e, n) ↦ rw (q, o, n) refl
        | inl n ↦
            let (shorter, packet, sub) =
              drain_round_shrinks p s (peek_header_total s.client.rx p o) counters n in
            rw (q, o, n)
              (same_rounds a b (drain_round u depth p s).1 (packet, sub) (omega arith)
                (omega arith))
      ]
    ]
  ]

  -- With the two counters below 2 ^ 16, any number of rounds above that of the received bytes gives
  -- what `drain_rx` gives: its loop never stops for want of rounds, whatever packets the bytes hold
  -- and whatever their handlers do.
  pub drain_rx_enough :
      (fuel : ℕ) (s : W)
      → s.client.next_packet_id < 65536
      → s.client.next_sub_id < 65536
      → length s.client.rx < fuel
      → drain_loop u depth fuel s ≡ drain_rx u depth s
  unfolding drain_rx
  drain_rx_enough fuel s packet sub h =
      same_rounds fuel (suc (length s.client.rx)) s (packet, sub) h (omega arith)
