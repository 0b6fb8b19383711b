-- ===== src/Client/Drain.antt =====
-- The receive path: handle_packet, drain_rx and pump_rx.
use paho_cpp_static.Client.Inbound.{handle_publish}
use paho_cpp_static.Packet.{
  PacketType, FixedHeader, puback, pubrec, pubrel, pubcomp, suback, unsuback, pingresp,
}
use paho_cpp_static.Client.Receive.{
  handle_pingresp, handle_connack, handle_puback, handle_pubrec, handle_pubrel, handle_pubcomp,
  handle_suback, handle_unsuback,
}
use paho_cpp_static.Codec.Decode.{PacketPeek, peek_header}
use paho_cpp_static.Prelude.{
  zero, some, none, [], suc, ℕ, Option, length, take, List, ◌-◌, if◌then◌else◌, ltb, is_empty, drop,
  ◌++◌, not, ◌==◌,
}
use paho_cpp_static.Error.{
  error, value, Error, ok, incomplete, packet_too_large, is_ok, would_block, protocol_violation,
}
use paho_cpp_static.Client.State.{
  ◌>>=◌, Setup, M, Client, Sys, clock_now, is_connecting, pure, lift,
}

module _ (u : Setup) (depth : ℕ) where
  unfoldable pub handle_by : PacketType → FixedHeader → List ℕ → M u Error
  handle_by PacketType.connack h body = handle_connack u depth body
  handle_by PacketType.publish h body = handle_publish u depth h body
  handle_by puback h body = handle_puback u depth body
  handle_by pubrec h body = handle_pubrec u depth body
  handle_by pubrel h body = handle_pubrel u depth body
  handle_by pubcomp h body = handle_pubcomp u depth body
  handle_by suback h body = handle_suback u depth body
  handle_by unsuback h body = handle_unsuback u depth body
  handle_by pingresp h body = handle_pingresp u depth body
  handle_by t h body = pure protocol_violation

  unfoldable pub handle_packet : FixedHeader → List ℕ → M u Error
  unfolding handle_by
  handle_packet h body = handle_by h.ptype h body

  -- What drain_rx does behind handle_packet: the error to return, or none to go on.
  unfoldable pub shift_rx : ℕ → Error → Client → Option Error × Client
  shift_rx total e c =
      if ltb (length c.rx) total
      then (some (if not (is_ok e) then e else c.last_error), record c { rx = [] })
      else (if not (is_ok e) then some e else none, record c { rx = drop total c.rx })

  unfoldable pub drain_round : PacketPeek → M u (Option Error)
  drain_round p s =
      let body = take p.header.remaining_length (drop p.header_bytes s.client.rx) in
      if ltb u.cfg.rx_buffer_size p.total_bytes
      then (some packet_too_large, s)
      else if ltb (length s.client.rx) p.total_bytes
      then (some ok, s)
      else (do e ← handle_packet p.header body; lift (shift_rx p.total_bytes e)) s

  abbrev pub peek_failure : Error → Error
  peek_failure incomplete = ok
  peek_failure e = e

  -- Each round takes a packet off the buffer, so its bytes bound the rounds.
  unfoldable pub drain_loop : ℕ → M u Error
  unfolding drain_round
  drain_loop zero s = (ok, s)
  drain_loop (suc fuel) s =
      if is_empty s.client.rx then (ok, s) else (elim (peek_header s.client.rx) [
        | error e ↦ (peek_failure e, s)
        | value p ↦
            (let r = drain_round p s in
              let again = drain_loop fuel r.1 in elim r.0 [ some e ↦ (e, r.1) | none ↦ again ])
      ])

  unfoldable pub drain_rx : M u Error
  unfolding drain_loop
  drain_rx s = drain_loop (suc (length s.client.rx)) s

  -- recv() and its answers: a result, or none to go on with what was read.
  unfoldable pub receive : M u (Option Error)
  receive s =
      let (e, bytes, w) = u.env.recv (u.cfg.rx_buffer_size - length s.client.rx) s.world in
      let (now, s') = clock_now u (record s { world = w }) in
      let c = s'.client in
      let held = record s { world = w } in
      let drained = drain_rx held in
      let got : Option Error × Sys u.env.World =
        (none, record s' { client = record c { rx = c.rx ++ bytes; last_received_ms = now } }) in
      elim e [
        | ok ↦ if is_empty bytes then (some drained.0, drained.1) else got
        | would_block ↦ (some drained.0, drained.1)
        | failure ↦ (some failure, held)
      ]

  unfoldable pub rx_round : M u (Option Error)
  unfolding receive
  rx_round s =
      let read : Option Error × Sys u.env.World =
        if ltb (length s.client.rx) u.cfg.rx_buffer_size then receive s else (none, s) in
      let drained = drain_rx read.1 in
      let c = drained.1.client in
      elim read.0 [
        | some e ↦ (some e, read.1)
        | none ↦
            if not (is_ok drained.0)
            then (some drained.0, drained.1)
            else if is_connecting c.state
            then (some ok, drained.1)
            else if length c.rx == u.cfg.rx_buffer_size
            then (some packet_too_large, drained.1)
            else (none, drained.1)
      ]

  -- `rounds` is what is left of kMaxRecvRoundsPerStep.
  unfoldable pub rx_loop : ℕ → M u Error
  rx_loop zero s = (ok, s)
  rx_loop (suc rounds) s =
      let r = rx_round s in
      let again = rx_loop rounds r.1 in elim r.0 [ some e ↦ (e, r.1) | none ↦ again ]

  unfoldable pub pump_rx : M u Error
  unfolding rx_loop rx_round receive
  pump_rx = rx_loop 8
