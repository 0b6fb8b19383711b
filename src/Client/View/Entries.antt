-- ===== src/Client/View/Entries.antt =====
-- Facts on the subscription table and on the guards of subscribe() and unsubscribe().
use paho_cpp_static.Client.View.Frame.{SameSubs-refl}
use paho_cpp_static.Topic.{eq_bytes}
use paho_cpp_static.Client.View.{SameSubs, ◌∷◌}
use paho_cpp_static.Packet.{TopicSubscription}
use paho_cpp_static.Client.Tables.{
  update_by_filter, update_by_sub_id, find_subscription, is_some, ack_table_full,
}
use paho_cpp_static.Client.Requests.{
  new_entries, named, subscribe_size, unsubscribe_size, filters_ok,
}
use paho_cpp_static.Client.State.{Setup, Subscription, Client}
use paho_cpp_static.Prelude.{
  true, inl, inr, [], List, ℕ, length, All, ◌++◌, ◌≡◌, ◌∷◌, ◌≤◌, Bool-cases, arith, ◌<◌, refl, ◌==◌,
  ◌+◌,
}
use paho_cpp_static.Error.{value, is_ok}

pub SameSubs-update :
    (filter : List ℕ) (f : Subscription → Subscription) (table : List Subscription)
    → ((s : Subscription) → ((f s).filter ≡ s.filter) × ((f s).sub_id ≡ s.sub_id))
    → SameSubs table (update_by_filter filter f table)
unfolding update_by_filter
SameSubs-update filter f [] h = tt
SameSubs-update filter f (s ∷ table) h = elim (Bool-cases (eq_bytes s.filter filter)) [
  | inl e ↦ rw e (h s, SameSubs-refl table)
  | inr e ↦ rw e ((refl, refl), SameSubs-update filter f table h)
]

pub SameSubs-update_id :
    (sid : ℕ) (f : Subscription → Subscription) (table : List Subscription)
    → ((s : Subscription) → ((f s).filter ≡ s.filter) × ((f s).sub_id ≡ s.sub_id))
    → SameSubs table (update_by_sub_id sid f table)
unfolding update_by_sub_id
SameSubs-update_id sid f [] h = tt
SameSubs-update_id sid f (s ∷ table) h = elim (Bool-cases (s.sub_id == sid)) [
  | inl e ↦ rw e (h s, SameSubs-refl table)
  | inr e ↦ rw e ((refl, refl), SameSubs-update_id sid f table h)
]

pub length-SameSubs :
    (table other : List Subscription) → SameSubs table other → length other ≡ length table
length-SameSubs [] [] h = refl
length-SameSubs [] (t ∷ ts) h = absurd h
length-SameSubs (s ∷ ss) [] h = absurd h
length-SameSubs (s ∷ ss) (t ∷ ts) h = omega (arith, length-SameSubs ss ts h.1)

pub find_subscription-SameSubs :
    (table other : List Subscription) (filter : List ℕ)
    → SameSubs table other
    → is_some (find_subscription other filter) ≡ is_some (find_subscription table filter)
unfolding find_subscription
find_subscription-SameSubs [] [] filter h = refl
find_subscription-SameSubs [] (t ∷ ts) filter h = absurd h
find_subscription-SameSubs (s ∷ ss) [] filter h = absurd h
find_subscription-SameSubs (s ∷ ss) (t ∷ ts) filter h =
    let tail = find_subscription-SameSubs ss ts filter h.1 in
    elim (Bool-cases (eq_bytes s.filter filter)) [
      | inl e ↦ rw (h.0.0, e) refl
      | inr e ↦ rw (h.0.0, e) tail
    ]

find_subscription-append :
    (table : List Subscription) (e : Subscription) (filter : List ℕ)
    → is_some (find_subscription table filter) ≡ true
    → is_some (find_subscription (table ++ (e ∷ [])) filter) ≡ true
unfolding find_subscription
find_subscription-append [] e filter h = cc
find_subscription-append (s ∷ table) e filter h =
    ground (arith, find_subscription-append table e filter)

pub new_entries-SameSubs :
    (u : Setup) (table other : List Subscription) (subs : List TopicSubscription)
    → SameSubs table other
    → new_entries u other subs ≡ new_entries u table subs
unfolding new_entries
new_entries-SameSubs u table other [] h = refl
new_entries-SameSubs u table other (s ∷ subs) h =
    rw
      (find_subscription-SameSubs table other s.filter h, new_entries-SameSubs u table other subs h)

pub new_entries-append :
    (u : Setup) (table : List Subscription) (e : Subscription) (subs : List TopicSubscription)
    → new_entries u (table ++ (e ∷ [])) subs ≤ new_entries u table subs
unfolding new_entries
new_entries-append u table e [] = omega arith
new_entries-append u table e (s ∷ subs) =
    ground (arith, new_entries-append u table e subs, find_subscription-append table e s.filter)

module _ (u : Setup) where
  -- Filters that the entries of the table can hold.
  abbrev pub Fits : List TopicSubscription → Type 0
  Fits = All (λ (s : TopicSubscription). length s.filter ≤ u.cfg.max_topic_len)

  filters_ok-Fits : (subs : List TopicSubscription) → is_ok (filters_ok u subs) ≡ true → Fits subs
  unfolding filters_ok
  filters_ok-Fits [] h = tt
  filters_ok-Fits (s ∷ subs) h = ground (arith, filters_ok-Fits subs)

  -- What subscribe() has tested when it goes on.
  pub subscribe_size_lem :
      (subs : List TopicSubscription) (c : Client) (rl : ℕ)
      → subscribe_size u subs c ≡ value rl
      → Fits subs
        × (length subs ≤ u.cfg.max_topics_per_request)
        × (length c.pending_acks < u.cfg.max_pending_acks)
        × (length c.subscriptions + new_entries u c.subscriptions subs ≤ u.cfg.max_subscriptions)
  unfolding subscribe_size ack_table_full
  subscribe_size_lem subs c rl e =
      (filters_ok-Fits subs (ground arith), ground arith, ground arith, ground arith)

  pub unsubscribe_size_lem :
      (filters : List (List ℕ)) (c : Client) (rl : ℕ)
      → unsubscribe_size u filters c ≡ value rl
      → (length filters ≤ u.cfg.max_topics_per_request)
        × (length c.pending_acks < u.cfg.max_pending_acks)
  unfolding unsubscribe_size ack_table_full
  unsubscribe_size_lem filters c rl e = (ground arith, ground arith)

  pub length-named :
      (table : List Subscription) (filters : List (List ℕ))
      → length (named u table filters) ≤ length filters
  unfolding named
  length-named table [] = omega arith
  length-named table (f ∷ filters) = ground (arith, length-named table filters)
