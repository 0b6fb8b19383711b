-- ===== src/Client/View/Step.antt =====
-- An invariant of the view under pump_rx(), step() and abort().
use paho_cpp_static.TxQueue.{is_drained}
use paho_cpp_static.Error.{Error, ok, transport_closed, connect_timeout}
use paho_cpp_static.Client.Transmit.{pump_tx}
use paho_cpp_static.Client.Pump.{pump_keep_alive, pump_retransmit, pump_resubscribe}
use paho_cpp_static.Client.Step.{
  after_tx, timers, step_once, flush, step, after_rx, check_connect_timeout, exchange, enter_step,
  or_shutdown, opened,
}
use paho_cpp_static.Client.Drain.{rx_round, rx_loop, receive, pump_rx, drain_rx}
use paho_cpp_static.Client.Session.{abort}
use paho_cpp_static.Prelude.{
  Bool-cases, Option-cases, zero, true, inl, inr, suc, ℕ, length, arith, ◌<◌, ◌&&◌, ◌-◌, none,
  Option, if◌then◌else◌, ltb,
}
use paho_cpp_static.Client.View.Session.{shutdown-Keeps}
use paho_cpp_static.Client.View.Drain.{drain_rx-Keeps}
use paho_cpp_static.Client.View.Pump.{
  pump_keep_alive-Keeps, pump_retransmit-Keeps, pump_resubscribe-Keeps,
}
use paho_cpp_static.Client.View.Transmit.{Keeps, pump_tx_keeps}
use paho_cpp_static.Client.View.{View, Closed, Receives, view, ℕ, length}
use paho_cpp_static.Client.State.{Setup, M, Sys, is_disconnecting}

module _ (u : Setup) (P : View → Type 0) (k : Closed u.cfg P) (g : Receives u.cfg P)
    (depth : ℕ) where
  abbrev W : Type 0
  W = Sys u.env.World

  receive_keeps :
      (s : W)
      → length s.client.rx < u.cfg.rx_buffer_size
      → P (view s.client)
      → P (view (receive u depth s).1.client)
  unfolding receive
  receive_keeps s room h =
      let o = u.env.recv (u.cfg.rx_buffer_size - length s.client.rx) s.world in
      let held : W = record s { world = o.2 } in
      let drained : P (view (drain_rx u depth held).1.client) =
        (drain_rx-Keeps u P k depth).at held h in
      let fits = u.env.recv_partial (u.cfg.rx_buffer_size - length s.client.rx) s.world in
      let got = g.on_received o.1 (view s.client) (omega (arith, fits)) h in
      ground (arith, h, drained, got)

  rx_round-Keeps : Keeps u P (rx_round u depth)
  unfolding rx_round
  rx_round-Keeps = record {
    at = λ s h.
        let read : Option Error × W =
          if ltb (length s.client.rx) u.cfg.rx_buffer_size then receive u depth s else (none, s) in
        let first : P (view read.1.client) =
          elim (Bool-cases (ltb (length s.client.rx) u.cfg.rx_buffer_size)) [
            | inl b ↦ rw b (receive_keeps s (ground (arith, b)) h)
            | inr b ↦ rw b h
          ] in
        let drained : P (view (drain_rx u depth read.1).1.client) =
          (drain_rx-Keeps u P k depth).at read.1 first in
        ground (arith, first, drained);
  }

  rx_loop-Keeps : (rounds : ℕ) → Keeps u P (rx_loop u depth rounds)
  unfolding rx_loop
  rx_loop-Keeps zero = record { at = λ s h. h }
  rx_loop-Keeps (suc rounds) = record {
    at = λ s h.
        let r = rx_round u depth s in
        let read : P (view r.1.client) = rx_round-Keeps.at s h in
        elim (Option-cases r.0) [
          | inl o ↦ rw (o, rx_loop) ((rx_loop-Keeps rounds).at r.1 read)
          | inr (e, o) ↦ rw (o, rx_loop) read
        ];
  }

  pump_rx-Keeps : Keeps u P (pump_rx u depth)
  unfolding pump_rx
  pump_rx-Keeps = record { at = (rx_loop-Keeps 8).at }

  -- A part of step_once() that fails ends in shutdown().
  or_shutdown_keeps :
      (rest : M u Error) (r : Error × W)
      → Keeps u P rest
      → P (view r.1.client)
      → P (view (or_shutdown u depth rest r).1.client)
  or_shutdown_keeps rest r kr h =
      ground (arith, (shutdown-Keeps u P k depth r.0).at r.1 h, kr.at r.1 h)

  check-Keeps : Keeps u P (check_connect_timeout u depth)
  unfolding check_connect_timeout
  check-Keeps = record {
    at = λ s h.
        let t : W = record s { world = (u.env.now_ms s.world).1 } in
        ground (arith, h, (shutdown-Keeps u P k depth connect_timeout).at t h);
  }

  flush-Keeps : Keeps u P (flush u depth)
  unfolding flush
  flush-Keeps = record {
    at = λ s h.
        or_shutdown_keeps (λ t. (ok, t)) (pump_tx u s) (record { at = λ t kept. kept })
          (pump_tx_keeps u P k s h);
  }

  resend-Keeps : Keeps u P (λ t. flush u depth (pump_retransmit u (pump_resubscribe u t).1).1)
  resend-Keeps = record {
    at = λ t h.
        let subs : W = (pump_resubscribe u t).1 in
        let packets : W = (pump_retransmit u subs).1 in
        flush-Keeps.at packets
          ((pump_retransmit-Keeps u P k).at subs ((pump_resubscribe-Keeps u P k).at t h));
  }

  timers-Keeps : Keeps u P (timers u depth)
  unfolding timers
  timers-Keeps = record {
    at = λ s h.
        or_shutdown_keeps (λ t. flush u depth (pump_retransmit u (pump_resubscribe u t).1).1)
          (pump_keep_alive u s) resend-Keeps ((pump_keep_alive-Keeps u P k).at s h);
  }

  after_rx-Keeps : Keeps u P (after_rx u depth)
  unfolding after_rx
  after_rx-Keeps = record {
    at = λ s h. ground (arith, h, check-Keeps.at s h, timers-Keeps.at s h, flush-Keeps.at s h);
  }

  after_tx-Keeps : Keeps u P (after_tx u depth)
  unfolding after_tx
  after_tx-Keeps = record {
    at = λ s h.
        let rest =
          or_shutdown_keeps (after_rx u depth) (pump_rx u depth s) after_rx-Keeps
            (pump_rx-Keeps.at s h) in
        elim (Bool-cases (is_disconnecting s.client.state && is_drained s.client.tx)) [
          | inl b ↦ rw b ((shutdown-Keeps u P k depth ok).at s h)
          | inr b ↦ rw b rest
        ];
  }

  exchange-Keeps : Keeps u P (exchange u depth)
  unfolding exchange
  exchange-Keeps = record {
    at = λ s h.
        or_shutdown_keeps (after_tx u depth) (pump_tx u s) after_tx-Keeps (pump_tx_keeps u P k s h);
  }

  step_once-Keeps : Keeps u P (step_once u depth)
  unfolding step_once
  step_once-Keeps = record {
    at = λ s h.
        let t : W = record s { world = (u.env.open_transport s.world).1 } in
        let e : Error = (u.env.open_transport s.world).0 in
        ground (
          arith,
          h,
          exchange-Keeps.at s h,
          exchange-Keeps.at (opened u depth t) h,
          check-Keeps.at t h,
          (shutdown-Keeps u P k depth e).at t h,
        );
  }

  pub step-Keeps : Keeps u P (step u depth)
  unfolding step
  step-Keeps = record {
    at = λ s h. elim (Bool-cases s.client.in_step) [
      | inl b ↦ rw b h
      | inr b ↦ rw b (step_once-Keeps.at (enter_step u depth true s) h)
    ];
  }

  pub abort-Keeps : Keeps u P (abort u depth)
  unfolding abort
  abort-Keeps = record { at = (shutdown-Keeps u P k depth transport_closed).at }
