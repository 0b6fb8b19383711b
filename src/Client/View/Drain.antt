-- ===== src/Client/View/Drain.antt =====
-- An invariant of the view under handle_packet() and drain_rx().
use paho_cpp_static.Codec.Decode.{PacketPeek, peek_header}
use paho_cpp_static.Client.Receive.{handle_pingresp, handle_puback, handle_pubcomp}
use paho_cpp_static.Packet.{
  FixedHeader, PacketType, puback, pubrec, pubrel, pubcomp, suback, unsuback, pingresp,
}
use paho_cpp_static.Error.{Error, Result-cases}
use paho_cpp_static.Prelude.{
  Bool-cases, Option-cases, inl, inr, suc, zero, ℕ, is_empty, length, List, take, arith, drop,
}
use paho_cpp_static.Client.View.Receive.{
  handle_connack-Keeps, finish_delivery-Keeps, handle_pubrec-Keeps, handle_pubrel-Keeps,
  handle_suback-Keeps, handle_unsuback-Keeps,
}
use paho_cpp_static.Client.View.Inbound.{handle_publish-Keeps}
use paho_cpp_static.Client.View.Transmit.{Keeps}
use paho_cpp_static.Client.Drain.{
  handle_packet, handle_by, shift_rx, drain_round, drain_loop, drain_rx,
}
use paho_cpp_static.Client.View.{View, Closed, view, ℕ, length, List, PacketType, drop}
use paho_cpp_static.Client.State.{Setup, Sys, Client, wait_puback, wait_pubcomp}

module _ (u : Setup) (P : View → Type 0) (k : Closed u.cfg P) (depth : ℕ) where
  abbrev W : Type 0
  W = Sys u.env.World

  handle_pingresp-Keeps : (body : List ℕ) → Keeps u P (handle_pingresp u depth body)
  unfolding handle_pingresp
  handle_pingresp-Keeps body = record { at = λ s h. ground (arith, h) }

  handle_by-Keeps :
      (t : PacketType) (header : FixedHeader) (body : List ℕ)
      → Keeps u P (handle_by u depth t header body)
  unfolding handle_by handle_puback handle_pubcomp
  handle_by-Keeps PacketType.connack header body = handle_connack-Keeps u P k depth body
  handle_by-Keeps PacketType.publish header body = handle_publish-Keeps u P k depth header body
  handle_by-Keeps puback header body = finish_delivery-Keeps u P k depth wait_puback body
  handle_by-Keeps pubrec header body = handle_pubrec-Keeps u P k depth body
  handle_by-Keeps pubrel header body = handle_pubrel-Keeps u P k depth body
  handle_by-Keeps pubcomp header body = finish_delivery-Keeps u P k depth wait_pubcomp body
  handle_by-Keeps suback header body = handle_suback-Keeps u P k depth body
  handle_by-Keeps unsuback header body = handle_unsuback-Keeps u P k depth body
  handle_by-Keeps pingresp header body = handle_pingresp-Keeps body
  handle_by-Keeps t header body = record { at = λ s h. h }

  pub handle_packet-Keeps :
      (header : FixedHeader) (body : List ℕ) → Keeps u P (handle_packet u depth header body)
  unfolding handle_packet
  handle_packet-Keeps header body = handle_by-Keeps header.ptype header body

  shift_rx_keeps :
      (total : ℕ) (e : Error) (c : Client) → P (view c) → P (view (shift_rx u depth total e c).1)
  unfolding shift_rx
  shift_rx_keeps total e c h = ground (arith, k.on_empty (view c) h, k.on_drop total (view c) h)

  drain_round-Keeps : (p : PacketPeek) → Keeps u P (drain_round u depth p)
  unfolding drain_round
  drain_round-Keeps p = record {
    at = λ s h.
        let body = take p.header.remaining_length (drop p.header_bytes s.client.rx) in
        let r = handle_packet u depth p.header body s in
        let handled : P (view r.1.client) = (handle_packet-Keeps p.header body).at s h in
        ground (arith, h, shift_rx_keeps p.total_bytes r.0 r.1.client handled);
  }

  drain_loop-Keeps : (fuel : ℕ) → Keeps u P (drain_loop u depth fuel)
  unfolding drain_loop
  drain_loop-Keeps zero = record { at = λ s h. h }
  drain_loop-Keeps (suc fuel) = record {
    at = λ s h. elim (Bool-cases (is_empty s.client.rx)) [
      | inl b ↦ rw (b, drain_loop) h
      | inr b ↦ elim (Result-cases (peek_header s.client.rx)) [
        | inr (e, q) ↦ rw (b, q, drain_loop) h
        | inl (p, q) ↦
            let r = drain_round u depth p s in
            let round : P (view r.1.client) = (drain_round-Keeps p).at s h in
            elim (Option-cases r.0) [
              | inl o ↦ rw (b, q, o, drain_loop) ((drain_loop-Keeps fuel).at r.1 round)
              | inr (e, o) ↦ rw (b, q, o, drain_loop) round
            ]
      ]
    ];
  }

  pub drain_rx-Keeps : Keeps u P (drain_rx u depth)
  unfolding drain_rx
  drain_rx-Keeps = record { at = λ s h. (drain_loop-Keeps (suc (length s.client.rx))).at s h }
