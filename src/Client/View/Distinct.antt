-- ===== src/Client/View/Distinct.antt =====
-- The packet ids of the slots in use and of the awaited acknowledgements, the recorded inbound ids
-- and the filters of the subscriptions are pairwise different.
use paho_cpp_static.Config.{Config}
use paho_cpp_static.Prelude.{
  ◌≡◌, ◌++◌, [], zero, false, true, suc, ℕ, List, ◌<◌, get_or, refl, ap, replicate, arith, sym, ◌∙◌,
}
use paho_cpp_static.Client.View.Filters.{
  AreApart, AreApart-append, AreApart-erase, AreApart-SameSubs,
}
use paho_cpp_static.Client.View.Reach.{Reached, App, reached_has}
use paho_cpp_static.Client.View.Apart.{
  IsApart, Part, Grown, Part-refl, nothing, IsApart-Part, Part-left, contains-append, Part-right,
  IsApart-Grown, Grown-left, Grown-right,
}
use paho_cpp_static.Client.Tables.{contains, update_slot}
use paho_cpp_static.Client.View.{View, ℕ, Config, List, ◌∷◌, get_or, IsFresh, Closed, view}
use paho_cpp_static.Client.State.{
  OutboundSlot, PendingAck, is_free, free_slot, Setup, new_client, at_least_one,
}
use paho_cpp_static.Client.View.BusyIds.{
  busy_ids, ack_ids, slots_use_lem, acks_use_lem, busy_ids-fill, busy_ids-release,
  busy_ids-release_all, busy_ids-pubrel, busy_ids-SameSlots, ack_ids-remove, remove_id-Part,
}

pub record IsDistinct (cfg : Config) (v : View) : Type 0 where
  pub packets : IsApart (busy_ids cfg.max_inflight_out v.outbound ++ ack_ids v.pending_acks)
  pub inbound : IsApart v.inbound_ids
  pub filters : AreApart v.subscriptions
  pub packet_counter : v.next_packet_id < 65536
  pub sub_counter : v.next_sub_id < 65536

module _ (cfg : Config) where
  -- All packet ids that are given out.
  abbrev pub used_ids : View → List ℕ
  used_ids v = busy_ids cfg.max_inflight_out v.outbound ++ ack_ids v.pending_acks

  IsFresh-unused : (id : ℕ) (v : View) → IsFresh cfg v id → contains (used_ids v) id ≡ false
  IsFresh-unused id v (low, high, slots, acks) =
      contains-append id (busy_ids cfg.max_inflight_out v.outbound) (ack_ids v.pending_acks)
        (sym (slots_use_lem id cfg.max_inflight_out v.outbound) ∙ slots)
        (sym (acks_use_lem id v.pending_acks) ∙ acks)

  -- Fewer slots in use, or fewer acknowledgements awaited.
  fewer_slots :
      (slots : List OutboundSlot) (v : View)
      → Part (busy_ids cfg.max_inflight_out slots) (busy_ids cfg.max_inflight_out v.outbound)
      → IsDistinct cfg v
      → IsDistinct cfg (record v { outbound = slots })
  fewer_slots slots v p b = record {
    packets = IsApart-Part _ (used_ids v) (Part-left _ _ (ack_ids v.pending_acks) p) b.packets;
    inbound = b.inbound;
    filters = b.filters;
    packet_counter = b.packet_counter;
    sub_counter = b.sub_counter;
  }

  fewer_acks :
      (acks : List PendingAck) (v : View)
      → Part (ack_ids acks) (ack_ids v.pending_acks)
      → IsDistinct cfg v
      → IsDistinct cfg (record v { pending_acks = acks })
  fewer_acks acks v p b = record {
    packets =
        IsApart-Part _ (used_ids v) (Part-right (busy_ids cfg.max_inflight_out v.outbound) _ _ p)
          b.packets;
    inbound = b.inbound;
    filters = b.filters;
    packet_counter = b.packet_counter;
    sub_counter = b.sub_counter;
  }

  -- A slot filled, or an acknowledgement awaited, under a fresh id.
  one_more :
      (id : ℕ) (v w : View)
      → IsFresh cfg v id
      → Grown id (used_ids v) (used_ids w)
      → IsDistinct cfg v
      → IsApart (used_ids w)
  one_more id v w fresh g b =
      IsApart-Grown id (used_ids v) (used_ids w) g (IsFresh-unused id v fresh) b.packets

  filled :
      (i : ℕ) (slot : OutboundSlot) (v : View)
      → is_free (get_or v.outbound i free_slot).phase ≡ true
      → is_free slot.phase ≡ false
      → IsFresh cfg v slot.packet_id
      → IsDistinct cfg v
      → IsApart (used_ids (record v { outbound = update_slot i (λ old. slot) v.outbound }))
  filled i slot v free busy fresh b =
      one_more slot.packet_id v (record v { outbound = update_slot i (λ old. slot) v.outbound })
        fresh
        (Grown-left slot.packet_id _ _ (ack_ids v.pending_acks)
          (busy_ids-fill cfg.max_inflight_out i slot v.outbound free busy))
        b

  ack_ids-append :
      (a : PendingAck) (acks : List PendingAck)
      → ack_ids (acks ++ (a ∷ [])) ≡ ack_ids acks ++ (a.packet_id ∷ [])
  ack_ids-append a [] = refl
  ack_ids-append a (x ∷ acks) = ap (◌∷◌ x.packet_id) (ack_ids-append a acks)

  awaited :
      (a : PendingAck) (v : View)
      → IsFresh cfg v a.packet_id
      → IsDistinct cfg v
      → IsApart (used_ids (record v { pending_acks = v.pending_acks ++ (a ∷ []) }))
  awaited a v fresh b =
      one_more a.packet_id v (record v { pending_acks = v.pending_acks ++ (a ∷ []) }) fresh
        (rw (ack_ids-append a v.pending_acks) (
          Grown-right a.packet_id (busy_ids cfg.max_inflight_out v.outbound)
            (ack_ids v.pending_acks)))
        b

  IsDistinct-Closed : Closed cfg (IsDistinct cfg)
  IsDistinct-Closed = record {
    counters = λ v b. (b.packet_counter, b.sub_counter);
    on_reserve = λ n v b. ground arith;
    on_queue = λ bytes n v short e b. ground arith;
    on_consume = λ n v b. ground arith;
    on_clear = λ v b. ground arith;
    on_drop = λ n v b. ground arith;
    on_empty = λ v b. ground arith;
    on_fill =
        λ i slot v lt free busy short fresh b. ground (arith, filled i slot v free busy fresh b);
    on_release = λ i v b. fewer_slots _ v (busy_ids-release cfg.max_inflight_out i v.outbound) b;
    on_release_all = λ v b.
        fewer_slots _ v (rw (busy_ids-release_all cfg.max_inflight_out v.outbound) nothing) b;
    on_pubrel = λ i bytes v busy short b.
        fewer_slots _ v
          (rw (busy_ids-pubrel cfg.max_inflight_out i bytes v.outbound busy) (Part-refl _)) b;
    on_touch = λ slots v same b.
        fewer_slots _ v
          (rw (busy_ids-SameSlots cfg.max_inflight_out v.outbound slots same) (Part-refl _)) b;
    on_record = λ id v new room b.
        ground (arith, IsApart-Grown id _ _ (Grown-right id [] v.inbound_ids) new b.inbound);
    on_forget =
        λ id v b. ground (arith, IsApart-Part _ _ (remove_id-Part v.inbound_ids id) b.inbound);
    on_forget_all = λ v b. ground arith;
    on_same_subs =
        λ table v same b. ground (arith, AreApart-SameSubs v.subscriptions table same b.filters);
    on_enter = λ e v new short room b.
        ground (arith, AreApart-append v.subscriptions e (rw new refl) b.filters);
    on_erase = λ sid v b. ground (arith, AreApart-erase sid v.subscriptions b.filters);
    on_ack = λ a v room few fresh b. ground (arith, awaited a v fresh b);
    on_ack_done = λ id expected v b. fewer_acks _ v (ack_ids-remove v.pending_acks id expected) b;
    on_acks_cleared = λ v b. fewer_acks [] v nothing b;
    on_counter = λ n v lt b. ground arith;
    on_sub_counter = λ n v lt b. ground arith;
  }

  busy_ids-new : (n m : ℕ) → busy_ids n (replicate m free_slot) ≡ []
  busy_ids-new zero m = refl
  busy_ids-new (suc n) zero = refl
  busy_ids-new (suc n) (suc m) = busy_ids-new n m

  new_client-IsDistinct : IsDistinct cfg (view (new_client cfg))
  unfolding new_client
  new_client-IsDistinct = record {
    packets = rw (busy_ids-new cfg.max_inflight_out (at_least_one cfg.max_inflight_out)) tt;
    inbound = tt;
    filters = tt;
    packet_counter = omega arith;
    sub_counter = omega arith;
  }

module _ (u : Setup) where
  -- Whatever calls an application makes of a new client and whatever callbacks it sets, in whatever
  -- order, over any transport and clock: in what is reached no packet id is in use twice among the slots in
  -- use and the awaited acknowledgements, no inbound id is recorded twice, and no filter stands
  -- twice in the subscription table.
  pub Reached-IsDistinct : (a : App u) → Reached u a → IsDistinct u.cfg (view a.1.client)
  Reached-IsDistinct a r =
      reached_has u (IsDistinct u.cfg) (IsDistinct-Closed u.cfg)
        (record { on_received = λ bytes v fits b. ground arith }) a (new_client-IsDistinct u.cfg) r
