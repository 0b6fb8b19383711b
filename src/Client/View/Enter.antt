-- ===== src/Client/View/Enter.antt =====
-- An invariant of the view while the filters of a request enter the table.
use paho_cpp_static.Client.View.Entries.{
  Fits, new_entries-append, SameSubs-update, length-SameSubs, new_entries-SameSubs,
}
use paho_cpp_static.Client.View.Frame.{alloc_sub_id_counter}
use paho_cpp_static.Packet.{TopicSubscription}
use paho_cpp_static.Client.Tables.{alloc_sub_id, is_some, find_subscription}
use paho_cpp_static.Client.Requests.{enter, new_entries, enter_all}
use paho_cpp_static.Client.View.{View, Closed, List, view, ℕ, length, ◌∷◌}
use paho_cpp_static.Prelude.{
  false, none, inl, inr, List, ℕ, Option, ◌≡◌, length, Option-cases, ◌≤◌, ◌+◌, if◌then◌else◌, [],
  ◌<◌, arith, ◌∙◌, refl, length-append,
}
use paho_cpp_static.Client.State.{Setup, Client, Subscription}

module _ (u : Setup) (P : View → Type 0) (k : Closed u.cfg P) where
  -- A search that finds nothing, in the two forms.
  find_none :
      (table : List Subscription) (filter : List ℕ)
      → is_some (find_subscription table filter) ≡ false
      → find_subscription table filter ≡ none
  find_none table filter h = elim (Option-cases (find_subscription table filter)) [
    | inl e ↦ e
    | inr (s, e) ↦ cc
  ]

  -- What entering one filter, or all, has to give.
  abbrev pub Entered : Client → Client → Type 0
  Entered c c' = P (view c') × (c'.outbound ≡ c.outbound) × (c'.pending_acks ≡ c.pending_acks)

  enter_keeps :
      (handler : Option ℕ) (s : TopicSubscription) (c : Client)
      → length s.filter ≤ u.cfg.max_topic_len
      → length c.subscriptions
          + (if is_some (find_subscription c.subscriptions s.filter) then 0 else 1)
        ≤ u.cfg.max_subscriptions
      → P (view c)
      → Entered c (enter u handler s c).1
        × ((subs : List TopicSubscription)
            → length (enter u handler s c).1.subscriptions
                + new_entries u (enter u handler s c).1.subscriptions subs
              ≤ length c.subscriptions
                + ((if is_some (find_subscription c.subscriptions s.filter) then 0 else 1)
                    + new_entries u c.subscriptions subs))
  unfolding enter alloc_sub_id
  enter_keeps handler s c fits space h =
      elim (Option-cases (find_subscription c.subscriptions s.filter)) [
        | inl e ↦
            let r = alloc_sub_id c in
            let entry : Subscription = record {
              filter = s.filter;
              handler = handler;
              sub_id = r.0;
              requested_qos = s.qos;
              granted_qos = 0;
              needs_resub = false;
            } in
            let counted : P (view r.1) =
              k.on_sub_counter _ (view c) (alloc_sub_id_counter c (k.counters (view c) h).1) h in
            let room : length c.subscriptions < u.cfg.max_subscriptions =
              omega (arith, rw e at space) in
            rw (e, enter)
              (
                (k.on_enter entry (view r.1) e fits room counted, refl, refl),
                λ subs. omega (
                  arith,
                  new_entries-append u c.subscriptions entry subs,
                  length-append c.subscriptions (entry ∷ []),
                ),
              )
        | inr (old, e) ↦
            let same =
              SameSubs-update s.filter
                (λ (x : Subscription). record x {
                  requested_qos = s.qos;
                  handler = handler;
                  needs_resub = false;
                })
                c.subscriptions (λ x. (refl, refl)) in
            rw (e, enter)
              (
                (k.on_same_subs _ (view c) same h, refl, refl),
                λ subs. omega (
                  arith,
                  length-SameSubs c.subscriptions _ same,
                  new_entries-SameSubs u c.subscriptions _ subs same,
                ),
              )
      ]

  pub length-enter_all :
      (handler : Option ℕ) (subs : List TopicSubscription) (c : Client)
      → length (enter_all u handler subs c).0 ≡ length subs
  unfolding enter_all
  length-enter_all handler [] c = refl
  length-enter_all handler (s ∷ subs) c =
      omega (arith, length-enter_all handler subs (enter u handler s c).1)

  pub enter_all_keeps :
      (handler : Option ℕ) (subs : List TopicSubscription) (c : Client)
      → Fits u subs
      → length c.subscriptions + new_entries u c.subscriptions subs ≤ u.cfg.max_subscriptions
      → P (view c)
      → Entered c (enter_all u handler subs c).1
  unfolding enter_all new_entries
  enter_all_keeps handler [] c fits space h = (h, refl, refl)
  enter_all_keeps handler (s ∷ subs) c fits space h =
      let c1 = (enter u handler s c).1 in
      let (now, later) = enter_keeps handler s c fits.0 (omega arith) h in
      let (keep, slots, acks) =
        enter_all_keeps handler subs c1 fits.1 (omega (arith, later subs)) now.0 in
      (keep, slots ∙ now.1, acks ∙ now.2)
