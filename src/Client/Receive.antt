-- ===== src/Client/Receive.antt =====
-- The receive path: one handler for each packet but PUBLISH. `depth` is that of shutdown().
use paho_cpp_static.Client.Inbound.{set_client, run_all}
use paho_cpp_static.Client.Transmit.{enqueue, send_ack}
use paho_cpp_static.Client.Tables.{
  find_outbound, find_pending, erase_subscription, slot_at, mark_resub, update_slot,
  update_by_sub_id, release_slot, remove_pending, inbound_remove, to_pubrel, count_backpressure,
}
use paho_cpp_static.Codec.Encode.{encode_ack}
use paho_cpp_static.Packet.{
  ConnackCode, ConnackInfo, pubrel, suback, suback_failure, unsuback, pubcomp, accepted,
}
use paho_cpp_static.Codec.Decode.{decode_suback, decode_connack, decode_packet_id}
use paho_cpp_static.Client.State.{
  Setup, Client, M, Phase, Subscription, ◌>>◌, ◌>>=◌, connected, wait_puback, pure, wait_pubcomp,
  phase_code, at_least_one, modify, get, wait_pubrec, is_awaiting, clock_now, lift,
}
use paho_cpp_static.Prelude.{
  none, some, true, [], false, ℕ, List, length, Bool, if◌then◌else◌, not, ◌∷◌, is_empty, ◌==◌,
}
use paho_cpp_static.Error.{
  error, value, Error, ok, protocol_violation, is_ok, malformed_packet, connection_refused,
}

module _ (u : Setup) (depth : ℕ) where
  unfoldable pub accept_connack : ConnackInfo → Client → Client
  accept_connack info c = record c {
    state = connected;
    ping_outstanding = false;
    retransmit_now = true;
    subscriptions =
        if not info.session_present then mark_resub c.subscriptions else c.subscriptions;
  }

  abbrev pub is_accepted : ConnackCode → Bool
  is_accepted accepted = true
  is_accepted c = false

  unfoldable pub handle_connack : List ℕ → M u Error
  unfolding accept_connack
  handle_connack body s = elim (decode_connack body) [
    | error e ↦ (if not (is_awaiting s.client.state) then protocol_violation else e, s)
    | value info ↦
        let known = record s { client = record s.client { connack = info } } in
        if not (is_awaiting s.client.state)
        then (protocol_violation, s)
        else if not (is_accepted info.code)
        then (connection_refused, known)
        else (do
          modify (accept_connack info)
          run_all u depth (u.handlers.on_connect info)
          pure ok)
            known
  ]

  abbrev pub in_phase : ℕ → Phase → Client → Bool
  in_phase i p c = phase_code (slot_at i c).phase == phase_code p

  abbrev pub complete : ℕ → ℕ → M u Error
  complete i id = do
    modify (λ c. record c { outbound = update_slot i release_slot c.outbound })
    run_all u depth (u.handlers.on_delivery id)
    pure ok

  -- PUBACK and PUBCOMP: the end of a delivery, if the slot waits for it.
  unfoldable pub finish_delivery : Phase → List ℕ → M u Error
  finish_delivery p body s = elim (decode_packet_id body) [
    | error e ↦ (e, s)
    | value id ↦ elim (find_outbound u.cfg s.client id) [
      | none ↦ (ok, s)
      | some i ↦ if not (in_phase i p s.client) then (ok, s) else complete i id s
    ]
  ]

  unfoldable pub handle_puback : List ℕ → M u Error
  unfolding finish_delivery
  handle_puback body = finish_delivery wait_puback body

  unfoldable pub handle_pubcomp : List ℕ → M u Error
  unfolding finish_delivery
  handle_pubcomp body = finish_delivery wait_pubcomp body

  -- The slot's PUBREL goes out; the clock is stamped on success only.
  unfoldable pub send_pubrel : ℕ → M u Error
  send_pubrel i = do
    c ← get
    e ← lift (enqueue (slot_at i c).packet)
    (if not (is_ok e) then set_client u depth count_backpressure else (do
      now ← clock_now u
      set_client u depth (λ c. record c {
        outbound = update_slot i (λ t. record t { last_sent_ms = now }) c.outbound;
      })))

  unfoldable pub first_pubrec : ℕ → ℕ → M u Error
  first_pubrec i id s =
      elim (encode_ack u.streams (at_least_one u.cfg.max_persisted_msg_size) pubrel id) [
        | error e ↦ (e, s)
        | value bytes ↦
            (do
              modify (λ c. record c { outbound = update_slot i (to_pubrel bytes) c.outbound })
              send_pubrel i)
              s
      ]

  unfoldable pub handle_pubrec : List ℕ → M u Error
  unfolding first_pubrec send_pubrel
  handle_pubrec body s = elim (decode_packet_id body) [
    | error e ↦ (e, s)
    | value id ↦ elim (find_outbound u.cfg s.client id) [
      | none ↦ (ok, s)
      | some i ↦
          if in_phase i wait_pubrec s.client
          then first_pubrec i id s
          else if in_phase i wait_pubcomp s.client
          then send_pubrel i s
          else (ok, s)
    ]
  ]

  unfoldable pub handle_pubrel : List ℕ → M u Error
  handle_pubrel body s = elim (decode_packet_id body) [
    | error e ↦ (e, s)
    | value id ↦
        (do
          e ← lift (send_ack u pubcomp id)
          (if not (is_ok e)
              then set_client u depth count_backpressure
              else set_client u depth (inbound_remove id)))
          s
  ]

  -- The loop over the return codes and the subscriptions that they answer.
  unfoldable pub apply_codes : List ℕ → List ℕ → List Subscription → List Subscription
  apply_codes [] sids table = table
  apply_codes (rc ∷ codes) [] table = table
  apply_codes (rc ∷ codes) (sid ∷ sids) table = apply_codes codes sids (
      if rc == suback_failure
      then erase_subscription sid table
      else update_by_sub_id sid (λ t. record t { granted_qos = rc; needs_resub = false }) table)

  unfoldable pub handle_suback : List ℕ → M u Error
  unfolding apply_codes
  handle_suback body s = elim (decode_suback body) [
    | error e ↦ (e, s)
    | value v ↦ elim (find_pending s.client.pending_acks v.packet_id suback) [
      | none ↦ (ok, s)
      | some ack ↦
          if not (length v.return_codes == length ack.subs)
          then (protocol_violation, s)
          else (do
            modify (λ c. record c {
              subscriptions = apply_codes v.return_codes ack.subs c.subscriptions;
              pending_acks = remove_pending c.pending_acks v.packet_id suback;
            })
            run_all u depth (u.handlers.on_suback v.packet_id v.return_codes)
            pure ok)
              s
    ]
  ]

  unfoldable pub erase_all : List ℕ → List Subscription → List Subscription
  erase_all [] table = table
  erase_all (sid ∷ sids) table = erase_all sids (erase_subscription sid table)

  unfoldable pub handle_unsuback : List ℕ → M u Error
  unfolding erase_all
  handle_unsuback body s = elim (decode_packet_id body) [
    | error e ↦ (e, s)
    | value id ↦ elim (find_pending s.client.pending_acks id unsuback) [
      | none ↦ (ok, s)
      | some ack ↦
          set_client u depth
            (λ c. record c {
              subscriptions = erase_all ack.subs c.subscriptions;
              pending_acks = remove_pending c.pending_acks id unsuback;
            })
            s
    ]
  ]

  unfoldable pub handle_pingresp : List ℕ → M u Error
  handle_pingresp body s =
      if not (is_empty body)
      then (malformed_packet, s)
      else set_client u depth (λ c. record c { ping_outstanding = false }) s
