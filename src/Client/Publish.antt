-- ===== src/Client/Publish.antt =====
-- publish().
use paho_cpp_static.Topic.{is_valid_topic_name}
use paho_cpp_static.Client.Transmit.{enqueue_sized, enqueue, packet_size}
use paho_cpp_static.Codec.Sizes.{publish_remaining_length}
use paho_cpp_static.Codec.Encode.{encode_publish}
use paho_cpp_static.Client.Tables.{free_outbound_slot, alloc_packet_id, update_slot}
use paho_cpp_static.Packet.{QoS, at_most_once, at_least_once}
use paho_cpp_static.Error.{
  value, error, Error, no_inflight_slot, payload_too_large, is_ok, ok, not_connected,
  buffer_too_small, invalid_argument, topic_too_long, not_supported,
}
use paho_cpp_static.Prelude.{
  false, none, some, List, ℕ, Bool, if◌then◌else◌, take, length, not, ◌%◌, ◌==◌, ltb,
}
use paho_cpp_static.Client.State.{
  ◌>>=◌, Setup, OutboundSlot, Client, M, clock_now, at_least_one, lift, is_connected, pure,
  wait_puback, wait_pubrec,
}

-- A packet that its slot cannot hold is too large to be tracked.
abbrev pub slot_error : Error → Error
slot_error buffer_too_small = payload_too_large
slot_error e = e

module _ (u : Setup) where
  -- publish() at QoS 0.
  unfoldable pub publish_once : List ℕ → List ℕ → Bool → Client → Error × Client
  publish_once topic payload retain c =
      elim (publish_remaining_length topic (length payload) at_most_once) [
        | error e ↦ (e, c)
        | value rl ↦
            enqueue_sized u.cfg (packet_size rl)
              (λ size. encode_publish u.streams size topic payload at_most_once retain false 0) c
      ]

  -- The slot of an accepted publish(); packet_len is a uint16_t.
  abbrev pub filled : List ℕ → ℕ → QoS → ℕ → OutboundSlot → OutboundSlot
  filled bytes id qos now slot = record {
    packet = take (length bytes % 65536) bytes;
    packet_id = id;
    last_sent_ms = now;
    qos = qos;
    phase = if qos == at_least_once then wait_puback else wait_pubrec;
  }

  unfoldable pub occupy : ℕ → List ℕ → ℕ → QoS → Error → M u Error
  occupy i bytes id qos e s =
      let (now, s') = clock_now u s in
      if not (is_ok e) then (e, s) else (
        ok,
        record s' {
          client = record s'.client {
            outbound = update_slot i (filled bytes id qos now) s'.client.outbound;
          };
        },
      )

  unfoldable pub publish_in_slot : ℕ → ℕ → List ℕ → List ℕ → QoS → Bool → M u Error
  publish_in_slot i id topic payload qos retain s =
      elim (encode_publish u.streams (at_least_one u.cfg.max_persisted_msg_size) topic payload qos
        retain false id) [
          | error e ↦ (slot_error e, s)
          | value bytes ↦ (do e ← lift (enqueue bytes); occupy i bytes id qos e) s
        ]

  -- publish() above QoS 0.
  unfoldable pub publish_tracked : List ℕ → List ℕ → QoS → Bool → M u Error
  publish_tracked topic payload qos retain s = elim (free_outbound_slot u.cfg s.client) [
    | none ↦ (no_inflight_slot, s)
    | some i ↦
        (do
          id ← lift (alloc_packet_id u.cfg)
          (if id == 0
              then pure no_inflight_slot
              else publish_in_slot i id topic payload qos retain))
          s
  ]

  unfoldable pub publish : List ℕ → List ℕ → QoS → Bool → M u Error
  unfolding publish_once publish_tracked publish_in_slot occupy
  publish topic payload qos retain s =
      if not (is_connected s.client.state)
      then (not_connected, s)
      else if not (is_valid_topic_name topic)
      then (invalid_argument, s)
      else if ltb u.cfg.max_topic_len (length topic)
      then (topic_too_long, s)
      else if qos == at_most_once
      then lift (publish_once topic payload retain) s
      else if u.cfg.max_inflight_out == 0
      then (not_supported, s)
      else publish_tracked topic payload qos retain s
