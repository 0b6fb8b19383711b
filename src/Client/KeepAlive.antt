-- ===== src/Client/KeepAlive.antt =====
-- What pump_keep_alive and step() promise, whatever the transport, the clock and the handlers do.
use paho_cpp_static.Client.Step.{step, enter_step}
use paho_cpp_static.Error.{reentrant, keep_alive_timeout, ok}
use paho_cpp_static.Client.Pump.{pump_keep_alive, keep_alive_at}
use paho_cpp_static.Client.State.{Setup, elapsed_ms, Sys}
use paho_cpp_static.Prelude.{true, ℕ, ◌≡◌, ◌↔◌, ◌≢◌, arith, refl, ◌<◌, ◌+◌, ◌^◌, ◌-◌, ◌%◌, ◌⊎◌}

module _ (u : Setup) where
  -- The keep-alive ends a session exactly when it is enabled, a PINGREQ is unanswered, and more than
  -- one keep-alive period has passed since it was queued, by the 32-bit clock; otherwise it returns
  -- success. So without an unanswered PINGREQ no reading of the clock ends the session.
  pub pump_keep_alive_exact :
      (s : Sys u.env.World)
      → (((pump_keep_alive u s).0 ≡ keep_alive_timeout) ↔ (
          (s.client.keep_alive_ms ≢ 0)
          × (s.client.ping_outstanding ≡ true)
          × (s.client.keep_alive_ms
              < ((u.env.now_ms s.world).0 + 2 ^ 32 - s.client.ping_sent_ms) % 2 ^ 32)))
        × (((pump_keep_alive u s).0 ≡ ok) ⊎ ((pump_keep_alive u s).0 ≡ keep_alive_timeout))
  unfolding pump_keep_alive keep_alive_at elapsed_ms
  pump_keep_alive_exact s = ((λ e. ground arith, λ p. ground arith), ground arith)

module _ (u : Setup) (depth : ℕ) where
  -- A `step` that a handler calls does nothing and reports Reentrant, and whatever handlers run in
  -- one, a `step` leaves the client as open to the next call as it was: in_step is set inside only.
  pub step_guarded :
      (s : Sys u.env.World)
      → ((step u depth s).1.client.in_step ≡ s.client.in_step)
        × ((step u depth (enter_step u depth true s)).0 ≡ reentrant)
        × ((step u depth (enter_step u depth true s)).1 ≡ enter_step u depth true s)
  unfolding step
  step_guarded s = (ground arith, refl, refl)
