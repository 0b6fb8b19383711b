-- ===== src/Client/View/Reach.antt =====
-- What an application does with a client: it constructs one, and calls it from time to time, with
-- whatever the outside world has become by then. An invariant of the view that the calls withstand
-- holds of all that is reached.
use paho_cpp_static.Client.Register.{Registration, register}
use paho_cpp_static.Error.{Error}
use paho_cpp_static.Prelude.{ℕ}
use paho_cpp_static.Client.Session.{run_any, shutdown}
use paho_cpp_static.Client.Step.{step}
use paho_cpp_static.Client.View.Session.{run_any-Keeps, shutdown-Keeps}
use paho_cpp_static.Client.View.Step.{step-Keeps}
use paho_cpp_static.Client.View.Transmit.{Keeps}
use paho_cpp_static.Client.View.{View, Closed, Receives, view}
use paho_cpp_static.Client.State.{Setup, AnyCall, M, basic, steps, new_client, Sys, Handlers}

module _ (u : Setup) where
  -- A call from outside the client.
  unfoldable pub perform : ℕ → AnyCall → M u Error
  perform depth (basic steps) = step u depth
  perform depth c = run_any u (shutdown u depth) c

module _ (u : Setup) where
  abbrev pub W : Type 0
  W = Sys u.env.World

  -- The client, the callbacks that are set, and the outside world.
  abbrev pub App : Type 0
  App = Handlers × W

  abbrev pub with_handlers : Handlers → Setup
  with_handlers hs = record u { handlers = hs }

  -- One step of the application: it calls the client or sets a callback, or the outside changes.
  infix 40 ◌⟶◌
  pub data ◌⟶◌ : App → App → Type 0 where
    calls :
        (depth : ℕ) (c : AnyCall) (hs : Handlers) (s : W)
        → (hs, s) ⟶ (hs, (perform (with_handlers hs) depth c s).1)
    registers : (r : Registration) (hs : Handlers) (s : W) → (hs, s) ⟶ (register r hs, s)
    passes : (w : u.env.World) (hs : Handlers) (s : W) → (hs, s) ⟶ (hs, record s { world = w })

  -- What is reached from a new client, with the handlers `u.handlers`.
  pub data Reached : App → Type 0 where
    constructed :
        (w : u.env.World) → Reached (u.handlers, record { client = new_client u.cfg; world = w })
    after : {a b : App} → Reached a → a ⟶ b → Reached b

module _ (u : Setup) (P : View → Type 0) (k : Closed u.cfg P) (g : Receives u.cfg P) where
  perform-Keeps : (depth : ℕ) (c : AnyCall) → Keeps u P (perform u depth c)
  unfolding perform
  perform-Keeps depth (basic steps) = step-Keeps u P k g depth
  perform-Keeps depth c = run_any-Keeps u P k (shutdown u depth) (shutdown-Keeps u P k depth) c

module _ (u : Setup) (P : View → Type 0) (k : Closed u.cfg P) (g : Receives u.cfg P) where
  move_keeps : (a b : App u) → ◌⟶◌ u a b → P (view a.1.client) → P (view b.1.client)
  move_keeps _ _ (calls depth c hs s) h = (perform-Keeps (with_handlers u hs) P k g depth c).at s h
  move_keeps _ _ (registers r hs s) h = h
  move_keeps _ _ (passes w hs s) h = h

  -- The rule for invariants: one that a new client has, every client that is reached has.
  pub reached_has : (a : App u) → P (view (new_client u.cfg)) → Reached u a → P (view a.1.client)
  reached_has _ fresh (constructed w) = fresh
  reached_has _ fresh (after {a} {b} r m) = move_keeps a b m (reached_has a fresh r)
