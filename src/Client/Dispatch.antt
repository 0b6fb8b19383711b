-- ===== src/Client/Dispatch.antt =====
-- Which handlers a message runs, and in which order.
use paho_cpp_static.Prelude.{
  Bool-cases, Option-cases, ◌≡◌, ◌||◌, [], inl, false, some, true, none, inr, ℕ, List, ◌∷◌,
  if◌then◌else◌, Bool, not, is_empty, arith, refl, ap, ◌∙◌,
}
use paho_cpp_static.Topic.{topic_matches}
use paho_cpp_static.Client.Inbound.{dispatch, dispatch_loop, run}
use paho_cpp_static.Packet.{Message}
use paho_cpp_static.Client.State.{Setup, Sys, Subscription, is_connected}

-- The handlers of the subscriptions that match, in the order of the table.
abbrev pub matching : List Subscription → Message → List ℕ
matching [] m = []
matching (e ∷ table) m = elim e.handler [
  | none ↦ matching table m
  | some h ↦ if topic_matches e.filter m.topic then h ∷ matching table m else matching table m
]

module _ (u : Setup) (depth : ℕ) where
  abbrev W : Type 0
  W = Sys u.env.World

  -- One handler after the other, until one ends the session.
  abbrev pub run_each : List ℕ → Message → W → W
  run_each [] m s = s
  run_each (h ∷ hs) m s =
      let t = (run u depth (u.handlers.on_subscription h m) s).1 in
      let more = run_each hs m t in if is_connected t.client.state then more else t

  nothing_runs : (hs : List ℕ) (m : Message) (s : W) → is_empty hs ≡ true → run_each hs m s ≡ s
  nothing_runs [] m s e = refl
  nothing_runs (h ∷ hs) m s e = cc

  loop_runs :
      (table : List Subscription) (m : Message) (handled : Bool) (s : W)
      → ((dispatch_loop u depth table m handled s).1 ≡ run_each (matching table m) m s)
        × (((dispatch_loop u depth table m handled s).0.1
              || (dispatch_loop u depth table m handled s).0.0)
            ≡ (handled || not (is_empty (matching table m))))
  unfolding dispatch_loop
  loop_runs [] m handled s = (refl, ground arith)
  loop_runs (e ∷ table) m handled s = elim (Option-cases e.handler) [
    | inl q ↦ rw (q, dispatch_loop) (loop_runs table m handled s)
    | inr (h, q) ↦ elim (Bool-cases (topic_matches e.filter m.topic)) [
      | inr b ↦ rw (q, dispatch_loop, b) (loop_runs table m handled s)
      | inl b ↦
          let t : W = (run u depth (u.handlers.on_subscription h m) s).1 in
          elim (Bool-cases (is_connected t.client.state)) [
            | inl c ↦
                let (same, flags) = loop_runs table m true t in
                rw (q, dispatch_loop, b, c) (same, ground (arith, flags))
            | inr c ↦ rw (q, dispatch_loop, b, c) (refl, ground arith)
          ]
    ]
  ]

  -- A message runs the handler of each subscription that matches its topic, in the order of the
  -- table, up to the first handler that ends the session; and the fallback handler exactly when no
  -- subscription with a handler matches.
  pub dispatch_runs :
      (m : Message) (s : W)
      → (dispatch u depth m s).1 ≡ (
          if is_empty (matching s.client.subscriptions m)
          then (run u depth (u.handlers.on_message m) s).1
          else run_each (matching s.client.subscriptions m) m s)
  unfolding dispatch
  dispatch_runs m s =
      let (same, flags) = loop_runs s.client.subscriptions m false s in
      elim (Bool-cases (is_empty (matching s.client.subscriptions m))) [
        | inl e ↦
            let quiet : (dispatch_loop u depth s.client.subscriptions m false s).0.1
                  || (dispatch_loop u depth s.client.subscriptions m false s).0.0
                ≡ false =
              rw e at flags in
            rw (quiet, e)
              (ap (λ (t : W). (run u depth (u.handlers.on_message m) t).1)
                (same ∙ nothing_runs (matching s.client.subscriptions m) m s e))
        | inr e ↦
            let told : (dispatch_loop u depth s.client.subscriptions m false s).0.1
                  || (dispatch_loop u depth s.client.subscriptions m false s).0.0
                ≡ true =
              rw e at flags in
            rw (told, e) same
      ]
