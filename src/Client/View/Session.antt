-- ===== src/Client/View/Session.antt =====
-- An invariant of the view under connect(), publish(), shutdown() and the handlers' programs.
use paho_cpp_static.Client.View.Requests.{subscribe-Keeps, unsubscribe-Keeps}
use paho_cpp_static.Client.Inbound.{run, run_all}
use paho_cpp_static.Codec.Room.{encode_connect-Caps, encode_empty-Caps}
use paho_cpp_static.Client.Transmit.{packet_size}
use paho_cpp_static.Client.View.Transmit.{enqueue_sized_keeps, Keeps}
use paho_cpp_static.TxQueue.{clear}
use paho_cpp_static.Error.{Error, Result-cases, is_ok, ok, transport_closed}
use paho_cpp_static.Client.Session.{
  close_session, connect, before_connect, finish_connect, connect_enqueue, connect_size,
  run_program, disconnect_by, queue_disconnect, run_call, shutdown, disconnect, run_any,
}
use paho_cpp_static.Packet.{ConnectOptions}
use paho_cpp_static.Client.Tables.{mark_resub, reset_session_state, release_slot}
use paho_cpp_static.Client.View.{View, Closed, map, List, view, SameSubs, ◌∷◌, clear, ℕ}
use paho_cpp_static.Prelude.{[], map, List, arith, refl, inr, inl, ℕ, Bool-cases, suc, zero}
use paho_cpp_static.Client.State.{
  Setup, M, Subscription, Client, Program, Call, call, connects, finish, publishes, disconnects,
  aborts, steps, Sys, AnyCall, basic, subscribes, unsubscribes,
}
use paho_cpp_static.Client.View.Publish.{publish-Keeps}

module _ (u : Setup) (P : View → Type 0) (k : Closed u.cfg P) where
  abbrev W : Type 0
  W = Sys u.env.World

  SameSubs-mark_resub : (table : List Subscription) → SameSubs table (mark_resub table)
  SameSubs-mark_resub [] = tt
  SameSubs-mark_resub (s ∷ table) = ((refl, refl), SameSubs-mark_resub table)

  pub mark_resub_keeps :
      (v : View) → P v → P (record v { subscriptions = mark_resub v.subscriptions })
  mark_resub_keeps v h = k.on_same_subs _ v (SameSubs-mark_resub v.subscriptions) h

  forget_session_keeps :
      (v : View) → P v → P (record v { outbound = map release_slot v.outbound; inbound_ids = [] })
  forget_session_keeps v h = k.on_forget_all _ (k.on_release_all v h)

  reset_keeps : (c : Client) → P (view c) → P (view (reset_session_state c))
  unfolding reset_session_state
  reset_keeps c h =
      k.on_counter 0 _ (omega arith)
        (k.on_acks_cleared _ (mark_resub_keeps _ (forget_session_keeps (view c) h)))

  pub close_session-Keeps : (reason : Error) → Keeps u P (close_session u reason)
  unfolding close_session
  close_session-Keeps reason = record {
    at = λ s h.
        let base : P
            (view (record s.client { tx = clear s.client.tx; rx = []; pending_acks = [] })) =
          k.on_acks_cleared _ (k.on_empty _ (k.on_clear (view s.client) h)) in
        elim (Bool-cases s.client.clean_session) [
          | inl e ↦ rw e (mark_resub_keeps _ (forget_session_keeps _ base))
          | inr e ↦ rw e (mark_resub_keeps _ base)
        ];
  }

  before_connect_keeps :
      (opts : ConnectOptions) (c : Client) → P (view c) → P (view (before_connect u opts c))
  before_connect_keeps opts c h =
      let base : P (view (record c { tx = clear c.tx; rx = [] })) =
        k.on_empty _ (k.on_clear (view c) h) in
      elim (Bool-cases opts.clean_session) [ inl e ↦ rw e (reset_keeps _ base) | inr e ↦ rw e base ]

  connect_enqueue_keeps :
      (opts : ConnectOptions) (rl : ℕ) (c : Client)
      → P (view c)
      → P (view (connect_enqueue u opts rl c).1)
  unfolding connect_enqueue
  connect_enqueue_keeps opts rl c h =
      enqueue_sized_keeps u P k (packet_size rl) _ (before_connect u opts c)
        (encode_connect-Caps u.streams (packet_size rl) opts) (before_connect_keeps opts c h)

  finish_connect-Keeps : (opts : ConnectOptions) (e : Error) → Keeps u P (finish_connect u opts e)
  unfolding finish_connect
  finish_connect-Keeps opts e = record {
    at = λ s h. elim (Bool-cases (is_ok e)) [ inl q ↦ rw q h | inr q ↦ rw q h ];
  }

  pub connect-Keeps : (opts : ConnectOptions) → Keeps u P (connect u opts)
  unfolding connect
  connect-Keeps opts = record {
    at = λ s h. elim (Result-cases (connect_size u opts s.client)) [
      | inl (rl, q) ↦
          rw (q, connect)
            ((finish_connect-Keeps opts _).at _ (connect_enqueue_keeps opts rl s.client h))
      | inr (e, q) ↦ rw (q, connect) h
    ];
  }

  queue_disconnect_keeps : (c : Client) → P (view c) → P (view (queue_disconnect u c).1)
  unfolding queue_disconnect
  queue_disconnect_keeps c h =
      enqueue_sized_keeps u P k (packet_size 0) _ c (encode_empty-Caps u.streams _ _) h

  -- shutdown() and the programs of the handlers, over any calls that keep the invariant.
  disconnect_by-Keeps :
      (shut : Error → M u Error)
      → ((e : Error) → Keeps u P (shut e))
      → Keeps u P (disconnect_by u shut)
  unfolding disconnect_by
  disconnect_by-Keeps shut ks = record {
    at = λ s h.
        let queued : P (view (queue_disconnect u s.client).1) = queue_disconnect_keeps s.client h in
        ground (
          arith,
          h,
          queued,
          (ks ok).at s h,
          (ks ok).at (record s { client = (queue_disconnect u s.client).1 }) queued,
        );
  }

  pub run_call-Keeps :
      (shut : Error → M u Error)
      → ((e : Error) → Keeps u P (shut e))
      → (c : Call) → Keeps u P (run_call u shut c)
  unfolding run_call
  run_call-Keeps shut ks (connects opts) = connect-Keeps opts
  run_call-Keeps shut ks disconnects = disconnect_by-Keeps shut ks
  run_call-Keeps shut ks aborts = record { at = λ s h. (ks transport_closed).at s h }
  run_call-Keeps shut ks steps = record { at = λ s h. h }
  run_call-Keeps shut ks (publishes topic payload qos retain) =
      publish-Keeps u P k topic payload qos retain

  pub run_program-Keeps :
      {C : Type 0} (run : C → M u Error)
      → ((c : C) → Keeps u P (run c))
      → (p : Program C) → Keeps u P (run_program u run p)
  unfolding run_program
  run_program-Keeps run kr finish = record { at = λ s h. h }
  run_program-Keeps run kr (call c k) = record {
    at = λ s h.
        let r = run c s in (run_program-Keeps run kr (k r.0 r.1.client)).at r.1 ((kr c).at s h);
  }

  pub run_any-Keeps :
      (shut : Error → M u Error)
      → ((e : Error) → Keeps u P (shut e))
      → (c : AnyCall) → Keeps u P (run_any u shut c)
  unfolding run_any
  run_any-Keeps shut ks (basic c) = run_call-Keeps shut ks c
  run_any-Keeps shut ks (subscribes subs handler) = subscribe-Keeps u P k subs handler
  run_any-Keeps shut ks (unsubscribes filters) = unsubscribe-Keeps u P k filters

  pub shutdown-Keeps : (depth : ℕ) (reason : Error) → Keeps u P (shutdown u depth reason)
  unfolding shutdown
  shutdown-Keeps zero reason = record { at = (close_session-Keeps reason).at }
  shutdown-Keeps (suc depth) reason = record {
    at = λ s h.
        let closed = (close_session-Keeps reason).at s h in
        let told =
          run_program-Keeps (run_any u (shutdown u depth))
            (run_any-Keeps (shutdown u depth) (shutdown-Keeps depth))
            (u.handlers.on_disconnect reason) in
        let after = told.at (close_session u reason s).1 closed in
        elim (Bool-cases (close_session u reason s).0) [ inl e ↦ rw e after | inr e ↦ rw e closed ];
  }

  pub disconnect-Keeps : (depth : ℕ) → Keeps u P (disconnect u depth)
  unfolding disconnect
  disconnect-Keeps depth = record {
    at = (disconnect_by-Keeps (shutdown u depth) (shutdown-Keeps depth)).at;
  }

  pub run-Keeps : (depth : ℕ) (p : Program Call) → Keeps u P (run u depth p)
  run-Keeps depth p =
      run_program-Keeps _ (run_call-Keeps (shutdown u depth) (shutdown-Keeps depth)) p

  pub run_all-Keeps : (depth : ℕ) (p : Program AnyCall) → Keeps u P (run_all u depth p)
  run_all-Keeps depth p =
      run_program-Keeps _ (run_any-Keeps (shutdown u depth) (shutdown-Keeps depth)) p
