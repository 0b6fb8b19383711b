-- ===== src/Client/Step.antt =====
-- step() and step_once(). `depth` is that of shutdown().
use paho_cpp_static.Client.Drain.{pump_rx}
use paho_cpp_static.TxQueue.{is_drained}
use paho_cpp_static.Client.Session.{shutdown}
use paho_cpp_static.Client.Pump.{pump_retransmit, pump_resubscribe, pump_keep_alive}
use paho_cpp_static.Client.Transmit.{pump_tx}
use paho_cpp_static.Error.{Error, ok, reentrant, connect_timeout, would_block, is_ok}
use paho_cpp_static.Prelude.{true, false, ℕ, Bool, ltb, if◌then◌else◌, not, ◌&&◌}
use paho_cpp_static.Client.State.{
  Setup, M, elapsed_ms, Sys, State, clock_now, awaiting_connack, is_connecting, is_idle,
  is_disconnecting, is_awaiting, is_connected,
}

module _ (u : Setup) (depth : ℕ) where
  abbrev pub W : Type 0
  W = Sys u.env.World

  abbrev pub set_state : State → W → W
  set_state t s = record s { client = record s.client { state = t } }

  -- The end of a part of step_once() that returns `e`: the session ends, or the rest is run.
  abbrev pub or_shutdown : (W → Error × W) → Error × W → Error × W
  or_shutdown rest r = if not (is_ok r.0) then shutdown u depth r.0 r.1 else rest r.1

  abbrev pub timed_out : M u Bool
  timed_out s =
      let (now, s') = clock_now u s in
      (ltb u.cfg.connect_timeout_ms (elapsed_ms now s'.client.connect_started_ms), s')

  -- The wait for the transport and for the CONNACK: on time, or the end of the session.
  unfoldable pub check_connect_timeout : M u Error
  unfolding elapsed_ms shutdown
  check_connect_timeout s =
      let r = timed_out s in if r.0 then shutdown u depth connect_timeout r.1 else (ok, r.1)

  abbrev pub opened : W → W
  opened s =
      let (now, s') = clock_now u (set_state awaiting_connack s) in
      record s' { client = record s'.client { last_sent_ms = now } }

  unfoldable pub flush : M u Error
  unfolding pump_tx
  flush s = or_shutdown (λ t. (ok, t)) (pump_tx u s)

  unfoldable pub timers : M u Error
  timers s =
      or_shutdown (λ t. flush (pump_retransmit u (pump_resubscribe u t).1).1) (pump_keep_alive u s)

  -- What follows pump_rx.
  unfoldable pub after_rx : M u Error
  unfolding timers
  after_rx s =
      if is_connecting s.client.state
      then (ok, s)
      else if is_awaiting s.client.state
      then check_connect_timeout s
      else if is_connected s.client.state
      then timers s
      else flush s

  unfoldable pub after_tx : M u Error
  after_tx s =
      if is_disconnecting s.client.state && is_drained s.client.tx
      then shutdown u depth ok s
      else or_shutdown after_rx (pump_rx u depth s)

  unfoldable pub exchange : M u Error
  unfolding after_tx
  exchange s = or_shutdown after_tx (pump_tx u s)

  unfoldable pub step_once : M u Error
  unfolding exchange after_tx
  step_once s =
      let (e, w) = u.env.open_transport s.world in
      let s' = record s { world = w } in
      if is_idle s.client.state
      then (ok, s)
      else if not (is_connecting s.client.state)
      then exchange s
      else (elim e [
        | ok ↦ exchange (opened s')
        | would_block ↦ check_connect_timeout s'
        | failure ↦ shutdown u depth failure s'
      ])

  abbrev pub enter_step : Bool → W → W
  enter_step flag s = record s { client = record s.client { in_step = flag } }

  unfoldable pub step : M u Error
  unfolding step_once
  step s =
      let r = step_once (enter_step true s) in
      if s.client.in_step then (reentrant, s) else (r.0, enter_step false r.1)
