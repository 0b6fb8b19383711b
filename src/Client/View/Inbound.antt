-- ===== src/Client/View/Inbound.antt =====
-- An invariant of the view under handle_publish() and what it delivers.
use paho_cpp_static.Client.Tables.{inbound_contains, inbound_table_full}
use paho_cpp_static.Client.Transmit.{send_ack, packet_size}
use paho_cpp_static.Codec.Decode.{decode_publish}
use paho_cpp_static.Error.{Result-cases}
use paho_cpp_static.Packet.{FixedHeader, Message, puback, pubrec}
use paho_cpp_static.Client.View.Frame.{enqueue_sized_tx}
use paho_cpp_static.Prelude.{
  Bool-cases, Option-cases, ◌≡◌, inl, inr, [], false, true, ℕ, List, Bool, arith, ◌++◌, ap,
}
use paho_cpp_static.Client.View.Session.{run-Keeps}
use paho_cpp_static.Client.View.Transmit.{Keeps, send_ack_keeps}
use paho_cpp_static.Client.Inbound.{
  dispatch_loop, dispatch, deliver_once, deliver_exactly, deliver, handle_publish, run,
}
use paho_cpp_static.Client.View.{View, Closed, view, ℕ, List, ◌∷◌}
use paho_cpp_static.Client.State.{Setup, Subscription, Sys, Client}

module _ (u : Setup) (P : View → Type 0) (k : Closed u.cfg P) (depth : ℕ) where
  abbrev W : Type 0
  W = Sys u.env.World

  -- One entry of the table, whose handler, if any, is run on a match.
  dispatch_loop-Keeps :
      (table : List Subscription) (m : Message) (handled : Bool)
      → Keeps u P (dispatch_loop u depth table m handled)
  unfolding dispatch_loop
  dispatch_loop-Keeps [] m handled = record { at = λ s h. h }
  dispatch_loop-Keeps (e ∷ table) m handled = record {
    at = λ s h. elim (Option-cases e.handler) [
      | inl q ↦ rw (q, dispatch_loop) ((dispatch_loop-Keeps table m handled).at s h)
      | inr (i, q) ↦
          let r : Unit {0} × W = run u depth (u.handlers.on_subscription i m) s in
          let ran : P (view r.1.client) =
            (run-Keeps u P k depth (u.handlers.on_subscription i m)).at s h in
          rw (q, dispatch_loop)
            (ground (
              arith,
              h,
              ran,
              (dispatch_loop-Keeps table m true).at r.1 ran,
              (dispatch_loop-Keeps table m handled).at s h,
            ))
    ];
  }

  dispatch-Keeps : (m : Message) → Keeps u P (dispatch u depth m)
  unfolding dispatch
  dispatch-Keeps m = record {
    at = λ s h.
        let r = dispatch_loop u depth s.client.subscriptions m false s in
        let looped : P (view r.1.client) =
          (dispatch_loop-Keeps s.client.subscriptions m false).at s h in
        ground (arith, looped, (run-Keeps u P k depth (u.handlers.on_message m)).at r.1 looped);
  }

  deliver_once-Keeps : (m : Message) → Keeps u P (deliver_once u depth m)
  unfolding deliver_once
  deliver_once-Keeps m = record {
    at = λ s h.
        let acked = send_ack_keeps u P k puback m.packet_id s.client h in
        let t : W = record s { client = (send_ack u puback m.packet_id s.client).1 } in
        ground (arith, acked, (dispatch-Keeps m).at t acked);
  }

  -- The id of a new message is recorded only behind both tests.
  record_keeps :
      (id : ℕ) (c : Client)
      → inbound_contains c id ≡ false
      → inbound_table_full u.cfg c ≡ false
      → P (view c)
      → P (
          view (record (send_ack u pubrec id c).1 {
            inbound_ids = (send_ack u pubrec id c).1.inbound_ids ++ (id ∷ []);
          }))
  unfolding inbound_contains inbound_table_full send_ack
  record_keeps id c new room h =
      let d : Client = (send_ack u pubrec id c).1 in
      let ids : d.inbound_ids ≡ c.inbound_ids =
        ap (λ (x : Client). x.inbound_ids) (enqueue_sized_tx u.cfg (packet_size 2) _ c) in
      k.on_record id (view d) (rw ids new) (rw ids (ground (arith, room)))
        (send_ack_keeps u P k pubrec id c h)

  deliver_exactly-Keeps : (m : Message) → Keeps u P (deliver_exactly u depth m)
  unfolding deliver_exactly
  deliver_exactly-Keeps m = record {
    at = λ s h.
        let d : Client = (send_ack u pubrec m.packet_id s.client).1 in
        let acked : P (view d) = send_ack_keeps u P k pubrec m.packet_id s.client h in
        let listed : Client = record d { inbound_ids = d.inbound_ids ++ (m.packet_id ∷ []) } in
        let recorded = record_keeps m.packet_id s.client in
        let dispatched = (dispatch-Keeps m).at (record s { client = listed }) in
        elim (Bool-cases (inbound_contains s.client m.packet_id)) [
          | inl a ↦ rw a (ground (arith, acked))
          | inr a ↦ elim (Bool-cases (inbound_table_full u.cfg s.client)) [
            | inl b ↦ rw (a, b) h
            | inr b ↦ rw (a, b) (ground (arith, acked, dispatched (recorded a b h)))
          ]
        ];
  }

  deliver-Keeps : (m : Message) → Keeps u P (deliver u depth m)
  unfolding deliver
  deliver-Keeps m = record {
    at = λ s h. ground (
      arith,
      h,
      (dispatch-Keeps m).at s h,
      (deliver_once-Keeps m).at s h,
      (deliver_exactly-Keeps m).at s h,
    );
  }

  pub handle_publish-Keeps :
      (header : FixedHeader) (body : List ℕ) → Keeps u P (handle_publish u depth header body)
  unfolding handle_publish
  handle_publish-Keeps header body = record {
    at = λ s h. elim (Result-cases (decode_publish u.streams header body)) [
      | inl (m, q) ↦ rw (q, handle_publish) (ground (arith, h, (deliver-Keeps m).at s h))
      | inr (e, q) ↦ rw (q, handle_publish) (ground (arith, h))
    ];
  }
