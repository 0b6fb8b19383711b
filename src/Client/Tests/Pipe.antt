-- ===== src/Client/Tests/Pipe.antt =====
-- A client over a transport that keeps what it is given, and the theorems there.
use paho_cpp_static.Client.Subscribed.{Subscribed, subscribe_accepted}
use paho_cpp_static.Client.Dispatch.{matching, run_each, dispatch_runs}
use paho_cpp_static.Codec.Sizes.{
  publish_remaining_length, checked_add, valid_qos, subscribe_remaining_length, subscribe_loop,
}
use paho_cpp_static.Codec.Encode.{
  encode_publish, write_fixed_header, write_string, encode_subscribe, write_subscriptions,
}
use paho_cpp_static.Utf8.{
  is_valid_mqtt_string, scan, sequence, lead_byte, allowed, continue_code_point,
}
use paho_cpp_static.Topic.{is_valid_topic_name, name_chars, is_valid_filter, filter_loop}
use paho_cpp_static.Client.Accepted.{Tracked, publish_accepted}
use paho_cpp_static.Header.{to_byte}
use paho_cpp_static.Client.Inbound.{run_all, dispatch, run}
use paho_cpp_static.Client.Receive.{handle_pubrec, handle_puback, handle_pubcomp}
use paho_cpp_static.Vbi.{encode_loop, vbi_encode, vbi_size}
use paho_cpp_static.Codec.Decode.{decode_packet_id}
use paho_cpp_static.Client.Handshake.{AwaitsPubcomp, pubrel_for, pubrec_moves, pubcomp_ends}
use paho_cpp_static.Client.Tests.{silent, enqueue_sized, packet_size, commit_encoded}
use paho_cpp_static.Config.{default_config}
use paho_cpp_static.Client.Resend.{resent, pump_retransmit_in_order}
use paho_cpp_static.Client.Atomic.{Untouched}
use paho_cpp_static.Client.Refused.{publish_refused, subscribe_refused}
use paho_cpp_static.Client.Requests.{
  subscribe, subscribe_size, filters_ok, new_entries, send_subscribe, finish_subscribe,
}
use paho_cpp_static.Client.Publish.{publish}
use paho_cpp_static.TxQueue.Inv.{IsValid}
use paho_cpp_static.Client.Wire.{Peer, pump_tx_in_order, pump_tx_drains}
use paho_cpp_static.Error.{ok, would_block}
use paho_cpp_static.Client.Transmit.{pump_tx, enqueue, enqueue_sized, packet_size, commit_encoded}
use paho_cpp_static.Codec.Stream.{list_stream}
use paho_cpp_static.Packet.{exactly_once, Message, at_most_once, TopicSubscription}
use paho_cpp_static.Client.State.{
  Setup, Env, Sys, new_client, free_slot, wait_puback, wait_pubcomp, Phase, wait_pubrec, connected,
  Client, free,
}
use paho_cpp_static.Client.Pump.{pump_retransmit}
use paho_cpp_static.TxQueue.{is_drained, peek, reserve}
use paho_cpp_static.Client.Tables.{
  mark_dup, find_outbound, update_slot, free_outbound_slot, find_slot, alloc_packet_id, alloc_loop,
  next_id, packet_id_in_use, slots_use, acks_use, ack_table_full, find_subscription, slot_at,
}
use paho_cpp_static.Prelude.{
  false, [], true, ℕ, ◌≡◌, ◌∷◌, length, arith, if◌then◌else◌, refl, ◌++◌, List, ltb, take, none,
  replicate, some, is_empty, leb, ◌+◌,
}

-- A transport that takes three bytes at a time and keeps them.
abbrev pipe : Env
pipe = record {
  World = List ℕ;
  now_ms = λ w. (0, w);
  open_transport = λ w. (ok, w);
  send = λ bytes w.
      let n = if ltb 3 (length bytes) then 3 else length bytes in (ok, n, w ++ take n bytes);
  recv = λ room w. (would_block, [], w);
  close = λ w. w;
  now_ms_u32 = λ w. omega arith;
  send_partial = λ bytes w. ground arith;
  recv_partial = λ room w. omega arith;
}

abbrev piped : Setup
piped = record { streams = list_stream; env = pipe; cfg = default_config; handlers = silent }

abbrev far_end : Peer pipe
far_end = record {
  received = λ w. w;
  on_ok = λ bytes w h. refl;
  on_error = λ bytes w h. cc;
  on_clock = λ w. refl;
}

-- Five bytes wait.
abbrev waiting : Sys (List ℕ)
waiting = record {
  client = record (new_client default_config) {
    tx = record { capacity = 8; buffer = 1 ∷ 2 ∷ 3 ∷ 4 ∷ 5 ∷ 6 ∷ 7 ∷ 8 ∷ []; head = 1; tail = 6 };
  };
  world = 9 ∷ [];
}

waiting-IsValid : IsValid waiting.client.tx
waiting-IsValid = record { storage = refl; ordered = omega arith; within = omega arith }

pump_tx_in_order_example :
    (pump_tx piped waiting).1.world ++ peek (pump_tx piped waiting).1.client.tx
    ≡ (9 ∷ []) ++ peek waiting.client.tx
pump_tx_in_order_example = pump_tx_in_order piped far_end waiting waiting-IsValid

pump_tx_drains_example :
    ((pump_tx piped waiting).0 ≡ ok)
    × (is_drained (pump_tx piped waiting).1.client.tx ≡ true)
    × ((pump_tx piped waiting).1.world ≡ (9 ∷ []) ++ peek waiting.client.tx)
pump_tx_drains_example =
    pump_tx_drains piped far_end (λ bytes w one. (refl, ground (arith, one))) waiting
      waiting-IsValid

-- One message in flight, behind a CONNACK.
abbrev resumed : Sys (List ℕ)
resumed = record {
  client = record waiting.client {
    tx = record { capacity = 8; buffer = 1 ∷ 2 ∷ 3 ∷ 4 ∷ 5 ∷ 6 ∷ 7 ∷ 8 ∷ []; head = 1; tail = 6 };
    outbound =
        record free_slot { packet = 0x32 ∷ 0 ∷ []; packet_id = 5; phase = wait_puback }
        ∷ free_slot
        ∷ [];
    retransmit_now = true;
  };
  world = [];
}

pump_retransmit_in_order_example :
    (peek (pump_retransmit piped resumed).1.client.tx
      ≡ peek resumed.client.tx ++ resent 4 resumed.client.outbound)
    × ((pump_retransmit piped resumed).1.client.retransmit_now ≡ false)
unfolding default_config peek mark_dup
pump_retransmit_in_order_example =
    pump_retransmit_in_order piped resumed refl
      (record { storage = refl; ordered = omega arith; within = omega arith })
      (omega arith, (omega arith, tt)) (omega arith)

resent_sets_dup : resent 4 resumed.client.outbound ≡ 0x3A ∷ 0 ∷ []
unfolding mark_dup
resent_sets_dup = refl

publish_refused_example :
    Untouched waiting.client (publish piped (0x61 ∷ []) [] exactly_once false waiting).1.client
unfolding publish new_client
publish_refused_example =
    publish_refused piped (0x61 ∷ []) [] exactly_once false waiting waiting-IsValid refl

subscribe_refused_example : Untouched waiting.client (subscribe piped [] none waiting).1.client
unfolding subscribe subscribe_size new_client
subscribe_refused_example = subscribe_refused piped [] none waiting waiting-IsValid refl

-- A QoS 2 message, id 5, in the given phase with the given packet.
abbrev halfway : Phase → List ℕ → Sys (List ℕ)
halfway phase bytes = record waiting {
  client = record waiting.client {
    outbound = record free_slot { packet = bytes; packet_id = 5; phase = phase } ∷ free_slot ∷ [];
  };
}

pubrec_moves_example :
    ((handle_pubrec piped 1 (0 ∷ 5 ∷ []) (halfway wait_pubrec [])).0 ≡ ok)
    × AwaitsPubcomp piped 1 0 5 (handle_pubrec piped 1 (0 ∷ 5 ∷ []) (halfway wait_pubrec [])).1
unfolding decode_packet_id find_outbound default_config
pubrec_moves_example =
    pubrec_moves piped 1 (0 ∷ 5 ∷ []) 0 5 (halfway wait_pubrec []) refl refl refl (omega arith)

abbrev answered : Sys (List ℕ)
answered = halfway wait_pubcomp (0x62 ∷ 2 ∷ 0 ∷ 5 ∷ [])

pubcomp_ends_example :
    ((handle_pubrec piped 1 (0 ∷ 5 ∷ []) answered).0 ≡ ok)
    × AwaitsPubcomp piped 1 0 5 (handle_pubrec piped 1 (0 ∷ 5 ∷ []) answered).1
    × (peek (handle_pubrec piped 1 (0 ∷ 5 ∷ []) answered).1.client.tx ≡ (
        if leb (length (peek answered.client.tx) + 4) answered.client.tx.capacity
        then peek answered.client.tx ++ pubrel_for piped 1 5
        else peek answered.client.tx))
    × (handle_puback piped 1 (0 ∷ 5 ∷ []) answered ≡ (ok, answered))
    × (c : Client) × (slot_at 0 c
        ≡ record (slot_at 0 answered.client) { phase = free; packet_id = 0; packet = [] })
    × (c ≡ record answered.client {
      outbound =
          update_slot 0
            (λ t. record t { phase = free; packet_id = 0; packet = [] })
            answered.client.outbound;
    })
    × (handle_pubcomp piped 1 (0 ∷ 5 ∷ []) answered
        ≡ (ok, (run_all piped 1 (silent.on_delivery 5) (record answered { client = c })).1))
unfolding decode_packet_id find_outbound default_config encode_loop to_byte
pubcomp_ends_example =
    pubcomp_ends piped 1 (0 ∷ 5 ∷ []) 0 5 answered refl (refl, refl, refl) waiting-IsValid

-- Connected, with room for sixteen bytes.
abbrev ready : Sys (List ℕ)
ready = record {
  client = record (new_client default_config) {
    tx = record { capacity = 16; buffer = replicate 16 0; head = 0; tail = 0 };
    state = connected;
  };
  world = [];
}

publish_accepted_example :
    Tracked piped
      (0x61 ∷ [])
      (0x68 ∷ [])
      exactly_once
      false
      ready.client
      (publish piped (0x61 ∷ []) (0x68 ∷ []) exactly_once false ready).1.client
unfolding new_client publish is_valid_topic_name name_chars is_valid_mqtt_string scan sequence
    lead_byte allowed continue_code_point default_config free_outbound_slot find_slot
    alloc_packet_id alloc_loop next_id packet_id_in_use slots_use acks_use encode_publish
    publish_remaining_length write_fixed_header write_string list_stream vbi_encode vbi_size
    encode_loop checked_add valid_qos enqueue reserve to_byte
publish_accepted_example =
    publish_accepted piped (0x61 ∷ []) (0x68 ∷ []) exactly_once false ready (ground arith)
      (omega arith) (record { storage = refl; ordered = omega arith; within = omega arith }) refl

-- A subscription to "a", with a handler.
abbrev subscribed : Sys (List ℕ)
subscribed = record ready {
  client = record ready.client {
    subscriptions =
        record {
          filter = 0x61 ∷ [];
          handler = some 3;
          sub_id = 1;
          requested_qos = 0;
          granted_qos = 0;
          needs_resub = false;
        }
        ∷ [];
  };
}

abbrev note : Message
note = record {
  topic = 0x61 ∷ [];
  payload = [];
  qos = at_most_once;
  retain = false;
  dup = false;
  packet_id = 0;
}

dispatch_runs_example : (dispatch piped 1 note subscribed).1 ≡ (
    if is_empty (matching subscribed.client.subscriptions note)
    then (run piped 1 (silent.on_message note) subscribed).1
    else run_each piped 1 (matching subscribed.client.subscriptions note) note subscribed)
dispatch_runs_example = dispatch_runs piped 1 note subscribed

-- The filter "a", with the handler 4.
abbrev wanted : List TopicSubscription
wanted = record { filter = 0x61 ∷ []; qos = 1 } ∷ []

subscribe_accepted_example :
    Subscribed piped wanted (some 4) ready.client (subscribe piped wanted (some 4) ready).1.client
unfolding new_client subscribe subscribe_size filters_ok is_valid_filter filter_loop ack_table_full
    new_entries find_subscription subscribe_remaining_length subscribe_loop send_subscribe
    enqueue_sized packet_size commit_encoded finish_subscribe is_valid_mqtt_string scan sequence
    lead_byte allowed continue_code_point default_config alloc_packet_id alloc_loop next_id
    packet_id_in_use slots_use acks_use encode_subscribe write_subscriptions write_fixed_header
    write_string list_stream vbi_encode vbi_size encode_loop checked_add valid_qos reserve to_byte
subscribe_accepted_example =
    subscribe_accepted piped wanted (some 4) ready (ground arith)
      (record { storage = refl; ordered = omega arith; within = omega arith }) refl
