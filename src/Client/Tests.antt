-- ===== src/Client/Tests.antt =====
-- A client over a loopback transport and a clock that ticks, and the theorems there.
mod Pipe
use paho_cpp_static.Config.{default_config}
use paho_cpp_static.Client.Acks.{has_room}
use paho_cpp_static.Client.Resend.{resent, pump_retransmit_in_order}
use paho_cpp_static.Client.Atomic.{Untouched}
use paho_cpp_static.Client.Refused.{publish_refused, subscribe_refused, unsubscribe_refused}
use paho_cpp_static.Client.Requests.{subscribe, unsubscribe, subscribe_size, unsubscribe_size}
use paho_cpp_static.Client.Publish.{publish}
use paho_cpp_static.TxQueue.Inv.{IsValid}
use paho_cpp_static.Client.Wire.{Peer, pump_tx_in_order, pump_tx_drains}
use paho_cpp_static.Client.Inbound.{deliver, dispatch}
use paho_cpp_static.Client.Step.{step, enter_step}
use paho_cpp_static.Vbi.{vbi_encode, vbi_size, encode_loop}
use paho_cpp_static.Codec.Encode.{encode_ack, write_fixed_header}
use paho_cpp_static.Client.KeepAlive.{step_guarded, pump_keep_alive_exact}
use paho_cpp_static.Client.Flush.{pump_tx_enough}
use paho_cpp_static.Client.Delivery.{
  apart_from_tx, Noted, refused_is_not_recorded, first_is_recorded,
}
use paho_cpp_static.Error.{ok, keep_alive_timeout, reentrant, is_ok, would_block}
use paho_cpp_static.Client.Transmit.{
  pump_tx_loop, send_ack, pump_tx, enqueue_sized, packet_size, commit_encoded,
}
use paho_cpp_static.Codec.Stream.{list_stream}
use paho_cpp_static.Client.Ids.{IsAllocated, alloc_packet_id-IsAllocated, alloc_sub_id-IsAllocated}
use paho_cpp_static.Packet.{Message, exactly_once}
use paho_cpp_static.Client.State.{
  Setup, Handlers, Env, Client, Sys, new_client, finish, connected, free_slot, wait_puback,
}
use paho_cpp_static.Client.Pump.{pump_keep_alive, pump_retransmit}
use paho_cpp_static.TxQueue.{pending, reserve, is_drained, peek}
use paho_cpp_static.Client.Tables.{
  inbound_contains, inbound_table_full, is_some, packet_id_in_use, alloc_packet_id, find_by_sub_id,
  alloc_sub_id, mark_dup,
}
use paho_cpp_static.Prelude.{
  false, [], true, inl, ℕ, ◌%◌, ◌≡◌, ◌∷◌, ◌^◌, ◌+◌, ◌↔◌, length, arith, ◌≢◌, ◌<◌, ◌-◌, refl, ◌⊎◌,
  List, ltb, take, none,
}

-- The world is the time, in milliseconds below 2 ^ 32.
abbrev loopback : Env
loopback = record {
  World = ℕ;
  now_ms = λ w. (w % 2 ^ 32, w + 1);
  open_transport = λ w. (ok, w);
  send = λ bytes w. (ok, length bytes, w);
  recv = λ room w. (would_block, [], w);
  close = λ w. w;
  now_ms_u32 = λ w. omega arith;
  send_partial = λ bytes w. omega arith;
  recv_partial = λ room w. omega arith;
}

abbrev silent : Handlers
silent = record {
  on_subscription = λ h m. finish;
  on_message = λ m. finish;
  on_connect = λ info. finish;
  on_disconnect = λ e. finish;
  on_delivery = λ id. finish;
  on_suback = λ id codes. finish;
}

abbrev setup : Setup
setup = record { streams = list_stream; env = loopback; cfg = default_config; handlers = silent }

-- Connected, with one QoS 2 id recorded and one byte waiting.
unfoldable online : Client
online = record (new_client default_config) {
  tx = record { capacity = 8; buffer = 1 ∷ 2 ∷ 3 ∷ 4 ∷ 5 ∷ 6 ∷ 7 ∷ 8 ∷ []; head = 1; tail = 2 };
  inbound_ids = 7 ∷ [];
  state = connected;
  keep_alive_ms = 1000;
  ping_outstanding = true;
}

unfoldable now : Sys ℕ
now = record { client = online; world = 5000 }

abbrev hello : ℕ → Message
hello id = record {
  topic = 0x61 ∷ [];
  payload = 0x68 ∷ [];
  qos = exactly_once;
  retain = false;
  dup = false;
  packet_id = id;
}

alloc_packet_id-IsAllocated_example :
    IsAllocated
      (packet_id_in_use default_config online)
      (alloc_packet_id default_config online).0
      (alloc_packet_id default_config online).1.next_packet_id
unfolding online new_client
alloc_packet_id-IsAllocated_example =
    alloc_packet_id-IsAllocated default_config online (omega arith)

pump_keep_alive_exact_example :
    (((pump_keep_alive setup now).0 ≡ keep_alive_timeout) ↔ (
      (now.client.keep_alive_ms ≢ 0)
      × (now.client.ping_outstanding ≡ true)
      × (now.client.keep_alive_ms
          < ((loopback.now_ms now.world).0 + 2 ^ 32 - now.client.ping_sent_ms) % 2 ^ 32)))
    × (((pump_keep_alive setup now).0 ≡ ok) ⊎ ((pump_keep_alive setup now).0 ≡ keep_alive_timeout))
pump_keep_alive_exact_example = pump_keep_alive_exact setup now

keep_alive_expires : (pump_keep_alive setup now).0 ≡ keep_alive_timeout
unfolding pump_keep_alive now online new_client
keep_alive_expires = refl

pump_tx_enough_example : pump_tx_loop setup 9 now ≡ pump_tx setup now
unfolding now online pending
pump_tx_enough_example =
    pump_tx_enough setup 9 now
      (record { storage = refl; ordered = omega arith; within = omega arith }) (omega arith)

now-IsValid : IsValid now.client.tx
unfolding now online
now-IsValid = record { storage = refl; ordered = omega arith; within = omega arith }

first_is_recorded_example :
    (t : Sys ℕ) × Noted setup 1 8 now t
    × (deliver setup 1 (hello 8) now ≡ (ok, (dispatch setup 1 (hello 8) t).1))
unfolding now online inbound_contains inbound_table_full default_config peek
first_is_recorded_example =
    first_is_recorded setup 1 (hello 8) now refl (λ z. omega (arith, z)) now-IsValid refl refl refl

duplicate_has_room : has_room setup now.client ≡ true
unfolding now online default_config peek
duplicate_has_room = refl

abbrev crowded : Sys ℕ
crowded = record now { client = record online { inbound_ids = 3 ∷ 4 ∷ 5 ∷ 6 ∷ [] } }

refused_is_not_recorded_example :
    ((deliver setup 1 (hello 8) crowded).0 ≡ ok)
    × (apart_from_tx setup 1 crowded (deliver setup 1 (hello 8) crowded).1 ≡ crowded)
    × (peek (deliver setup 1 (hello 8) crowded).1.client.tx ≡ peek crowded.client.tx)
unfolding inbound_contains inbound_table_full default_config now
refused_is_not_recorded_example =
    refused_is_not_recorded setup 1 (hello 8) crowded refl now-IsValid refl (inl refl)
