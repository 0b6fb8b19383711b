-- ===== src/Client/View/Bounded.antt =====
-- The limits of the configuration, as an invariant of the view.
use paho_cpp_static.TxQueue.{empty_queue}
use paho_cpp_static.Config.{Config}
use paho_cpp_static.Client.View.Reach.{Reached, App, reached_has}
use paho_cpp_static.Prelude.{
  length-append, [], arith, length, length-drop, ◌≤◌, ◌<◌, ◌∷◌, length-replicate, refl,
}
use paho_cpp_static.Client.View.Limits.{All-replicate, length-remove_id}
use paho_cpp_static.TxQueue.Inv.{empty_queue-IsValid}
use paho_cpp_static.Client.View.{View, Closed, Receives, view, Config, length}
use paho_cpp_static.Client.State.{at_least_one, new_client, Setup, free_slot}
use paho_cpp_static.Client.View.Fits.{
  QueueFits, SlotsFit, SubsFit, AcksFit, reserve-QueueFits, queue-QueueFits, consume-QueueFits,
  clear-QueueFits, fill-SlotsFit, release-SlotsFit, release_all-SlotsFit, pubrel-SlotsFit,
  touch-SlotsFit, same-SubsFit, enter-SubsFit, erase-SubsFit, add-AcksFit, remove-AcksFit,
  none-AcksFit,
}

pub record IsBounded (cfg : Config) (v : View) : Type 0 where
  pub queue : QueueFits cfg v.tx
  pub received : length v.rx ≤ cfg.rx_buffer_size
  pub slots : SlotsFit cfg v.outbound
  pub ids : length v.inbound_ids ≤ cfg.max_inflight_in
  pub subs : SubsFit cfg v.subscriptions
  pub acks : AcksFit cfg v.pending_acks
  pub packet_counter : v.next_packet_id < 65536
  pub sub_counter : v.next_sub_id < 65536

module _ (cfg : Config) where
  pub IsBounded-Closed : Closed cfg (IsBounded cfg)
  IsBounded-Closed = record {
    counters = λ v b. (b.packet_counter, b.sub_counter);
    on_reserve = λ n v b. ground (arith, reserve-QueueFits cfg n v.tx b.queue);
    on_queue =
        λ bytes n v short e b. ground (arith, queue-QueueFits cfg bytes n v.tx short e b.queue);
    on_consume = λ n v b. ground (arith, consume-QueueFits cfg n v.tx b.queue);
    on_clear = λ v b. ground (arith, clear-QueueFits cfg v.tx b.queue);
    on_drop = λ n v b. ground (arith, length-drop n v.rx);
    on_empty = λ v b. ground arith;
    on_fill = λ i slot v lt free busy short fresh b.
        ground (arith, fill-SlotsFit cfg i (λ old. slot) v.outbound (λ s. short) b.slots);
    on_release = λ i v b. ground (arith, release-SlotsFit cfg i v.outbound b.slots);
    on_release_all = λ v b. ground (arith, release_all-SlotsFit cfg v.outbound b.slots);
    on_pubrel = λ i bytes v busy short b.
        ground (arith, pubrel-SlotsFit cfg i bytes v.outbound short b.slots);
    on_touch = λ slots v same b. ground (arith, touch-SlotsFit cfg v.outbound slots same b.slots);
    on_record = λ id v new room b. ground (arith, length-append v.inbound_ids (id ∷ []));
    on_forget = λ id v b. ground (arith, length-remove_id v.inbound_ids id);
    on_forget_all = λ v b. ground arith;
    on_same_subs =
        λ table v same b. ground (arith, same-SubsFit cfg v.subscriptions table same b.subs);
    on_enter = λ e v new short room b.
        ground (arith, enter-SubsFit cfg e v.subscriptions short room b.subs);
    on_erase = λ sid v b. ground (arith, erase-SubsFit cfg sid v.subscriptions b.subs);
    on_ack =
        λ a v room few fresh b. ground (arith, add-AcksFit cfg a v.pending_acks room few b.acks);
    on_ack_done =
        λ id expected v b. ground (arith, remove-AcksFit cfg v.pending_acks id expected b.acks);
    on_acks_cleared = λ v b. ground (arith, none-AcksFit cfg);
    on_counter = λ n v lt b. ground arith;
    on_sub_counter = λ n v lt b. ground arith;
  }

  IsBounded-Receives : Receives cfg (IsBounded cfg)
  IsBounded-Receives = record {
    on_received = λ bytes v fits b. ground (arith, length-append v.rx bytes);
  }

  new_client-IsBounded : IsBounded cfg (view (new_client cfg))
  unfolding new_client empty_queue
  new_client-IsBounded = record {
    queue = record { valid = empty_queue-IsValid cfg.tx_buffer_size; sized = refl };
    received = omega arith;
    slots = record {
      count = length-replicate (at_least_one cfg.max_inflight_out) free_slot;
      packets = All-replicate _ (at_least_one cfg.max_inflight_out) free_slot (omega arith);
    };
    ids = omega arith;
    subs = record { count = omega arith; filters = tt };
    acks = none-AcksFit cfg;
    packet_counter = omega arith;
    sub_counter = omega arith;
  }

module _ (u : Setup) where
  -- Whatever calls an application makes of a new client and whatever callbacks it sets, in whatever
  -- order, over any transport and clock, what is reached is within the limits of the configuration. The
  -- transmit queue is in order and as large as configured, the received bytes fit their buffer, no
  -- table holds more entries than configured, and no stored packet, filter or batch of
  -- subscriptions is longer than configured; for the slots and their packets a configured 0 counts
  -- as 1.
  pub Reached-IsBounded : (a : App u) → Reached u a → IsBounded u.cfg (view a.1.client)
  Reached-IsBounded a r =
      reached_has u (IsBounded u.cfg) (IsBounded-Closed u.cfg) (IsBounded-Receives u.cfg) a
        (new_client-IsBounded u.cfg) r
