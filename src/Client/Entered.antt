-- ===== src/Client/Entered.antt =====
-- The subscription table after subscribe() has entered its filters.
use paho_cpp_static.Client.Requests.{enter, enter_all}
use paho_cpp_static.Topic.Match.{eq_bytes_iff}
use paho_cpp_static.Prelude.{
  ℕ, List, Option, none, some, true, false, [], ◌∷◌, ◌++◌, ◌≡◌, refl, arith, Bool-cases, inl, inr,
  ap, if◌then◌else◌, ◌∙◌, Option-cases, subst,
}
use paho_cpp_static.Topic.{eq_bytes}
use paho_cpp_static.Packet.{TopicSubscription}
use paho_cpp_static.Client.State.{Subscription, Client, Setup}
use paho_cpp_static.Client.Tables.{find_subscription, update_by_filter, alloc_sub_id}

-- A filter has an entry with this handler and sub_id, which needs no resubscription.
abbrev pub HasEntry : Option ℕ → List Subscription → List ℕ → ℕ → Type 0
HasEntry handler table filter sid =
    (e : Subscription) × (find_subscription table filter ≡ some e)
    × (e.handler ≡ handler)
    × (e.sub_id ≡ sid)
    × (e.needs_resub ≡ false)

-- Each requested filter has one, with the sub_id at its place in the list.
abbrev pub AllEntered : Option ℕ → List Subscription → List TopicSubscription → List ℕ → Type 0
AllEntered handler table [] [] = Unit {0}
AllEntered handler table [] (sid ∷ sids) = ⊥
AllEntered handler table (s ∷ subs) [] = ⊥
AllEntered handler table (s ∷ subs) (sid ∷ sids) =
    HasEntry handler table s.filter sid × AllEntered handler table subs sids

-- The entry of the filter that is renewed.
find-update :
    (f : List ℕ) (g : Subscription → Subscription) (table : List Subscription) (e : Subscription)
    → ((x : Subscription) → (g x).filter ≡ x.filter)
    → find_subscription table f ≡ some e
    → find_subscription (update_by_filter f g table) f ≡ some (g e)
unfolding find_subscription update_by_filter
find-update f g [] e keeps h = absurd cc
find-update f g (s ∷ table) e keeps h = elim (Bool-cases (eq_bytes s.filter f)) [
  | inl q ↦
      let same : s ≡ e = ground (arith, h, q) in
      let kept : eq_bytes (g s).filter f ≡ true = ap (λ l. eq_bytes l f) (keeps s) ∙ q in
      rw (q, kept) (ap (λ x. some (g x)) same)
  | inr q ↦ rw (q, q) (find-update f g table e keeps (ground (arith, h, q)))
]

-- The entries of the others.
find-update_other :
    (f o : List ℕ) (g : Subscription → Subscription) (table : List Subscription)
    → ((x : Subscription) → (g x).filter ≡ x.filter)
    → eq_bytes f o ≡ false
    → find_subscription (update_by_filter f g table) o ≡ find_subscription table o
unfolding find_subscription update_by_filter
find-update_other f o g [] keeps h = refl
find-update_other f o g (s ∷ table) keeps h = elim (Bool-cases (eq_bytes s.filter f)) [
  | inl q ↦
      let apart : eq_bytes s.filter o ≡ false = rw ((eq_bytes_iff s.filter f).0 q) h in
      let kept : eq_bytes (g s).filter o ≡ false = ap (λ l. eq_bytes l o) (keeps s) ∙ apart in
      rw (q, kept, apart) refl
  | inr q ↦
      rw q (
        ap (λ r. if eq_bytes s.filter o then some s else r) (find-update_other f o g table keeps h))
]

-- An entry at the end of the table.
find-append :
    (table : List Subscription) (n : Subscription) (o : List ℕ) (e : Subscription)
    → find_subscription table o ≡ some e
    → find_subscription (table ++ (n ∷ [])) o ≡ some e
unfolding find_subscription
find-append [] n o e h = absurd cc
find-append (s ∷ table) n o e h = ground (arith, h, find-append table n o e)

find-append_new :
    (table : List Subscription) (n : Subscription)
    → find_subscription table n.filter ≡ none
    → find_subscription (table ++ (n ∷ [])) n.filter ≡ some n
unfolding find_subscription
find-append_new [] n h = rw ((eq_bytes_iff n.filter n.filter).1 refl) refl
find-append_new (s ∷ table) n h = ground (arith, h, find-append_new table n)

module _ (u : Setup) (handler : Option ℕ) where
  abbrev renewed : ℕ → Subscription → Subscription
  renewed qos e = record e { requested_qos = qos; handler = handler; needs_resub = false }

  -- The filter itself.
  enter_own :
      (s : TopicSubscription) (c : Client)
      → HasEntry handler (enter u handler s c).1.subscriptions s.filter (enter u handler s c).0
  unfolding enter alloc_sub_id
  enter_own s c = elim (Option-cases (find_subscription c.subscriptions s.filter)) [
    | inl q ↦ rw (q, enter) (_, find-append_new c.subscriptions _ q, refl, refl, refl)
    | inr (e, q) ↦
        rw (q, enter)
          (
            renewed s.qos e,
            find-update s.filter (renewed s.qos) c.subscriptions e (λ x. refl) q,
            refl,
            refl,
            refl,
          )
  ]

  -- The filters that have been entered before.
  enter_others :
      (s : TopicSubscription) (c : Client) (o : List ℕ) (sid : ℕ)
      → HasEntry handler c.subscriptions o sid
      → HasEntry handler (enter u handler s c).1.subscriptions o sid
  unfolding enter alloc_sub_id
  enter_others s c o sid (e, found, h, i, n) =
      elim (Option-cases (find_subscription c.subscriptions s.filter)) [
        | inl q ↦ rw (q, enter) (e, find-append c.subscriptions _ o e found, h, i, n)
        | inr (x, q) ↦ elim (Bool-cases (eq_bytes s.filter o)) [
          | inl same ↦
              let g = renewed s.qos in
              let at : s.filter ≡ o = (eq_bytes_iff s.filter o).0 same in
              let there : find_subscription c.subscriptions s.filter ≡ some e = rw at found in
              let table = update_by_filter s.filter g c.subscriptions in
              let kept : find_subscription table o ≡ some (g e) =
                subst (λ f. find_subscription table f ≡ some (g e)) at
                  (find-update s.filter g c.subscriptions e (λ y. refl) there) in
              rw (q, enter) (g e, kept, refl, i, refl)
          | inr apart ↦
              rw (q, enter)
                (
                  e,
                  find-update_other s.filter o (renewed s.qos) c.subscriptions (λ y. refl) apart
                      ∙ found,
                  h,
                  i,
                  n,
                )
        ]
      ]

  enter_all_others :
      (subs : List TopicSubscription) (c : Client) (o : List ℕ) (sid : ℕ)
      → HasEntry handler c.subscriptions o sid
      → HasEntry handler (enter_all u handler subs c).1.subscriptions o sid
  unfolding enter_all
  enter_all_others [] c o sid h = h
  enter_all_others (s ∷ subs) c o sid h =
      enter_all_others subs (enter u handler s c).1 o sid (enter_others s c o sid h)

  pub enter_all-AllEntered :
      (subs : List TopicSubscription) (c : Client)
      → AllEntered handler
          (enter_all u handler subs c).1.subscriptions
          subs
          (enter_all u handler subs c).0
  unfolding enter_all
  enter_all-AllEntered [] c = tt
  enter_all-AllEntered (s ∷ subs) c =
      let c1 = (enter u handler s c).1 in
      (
        enter_all_others subs c1 s.filter (enter u handler s c).0 (enter_own s c),
        enter_all-AllEntered subs c1,
      )

  enter_rest :
      (s : TopicSubscription) (c : Client)
      → ((enter u handler s c).1.tx ≡ c.tx)
        × ((enter u handler s c).1.pending_acks ≡ c.pending_acks)
  unfolding enter alloc_sub_id
  enter_rest s c = elim (Option-cases (find_subscription c.subscriptions s.filter)) [
    | inl q ↦ rw (q, enter) (refl, refl)
    | inr (e, q) ↦ rw (q, enter) (refl, refl)
  ]

  -- Entering filters leaves the queue and the awaited answers alone.
  pub enter_all_rest :
      (subs : List TopicSubscription) (c : Client)
      → ((enter_all u handler subs c).1.tx ≡ c.tx)
        × ((enter_all u handler subs c).1.pending_acks ≡ c.pending_acks)
  unfolding enter_all
  enter_all_rest [] c = (refl, refl)
  enter_all_rest (s ∷ subs) c =
      let (tx, acks) = enter_all_rest subs (enter u handler s c).1 in
      let (tx', acks') = enter_rest s c in (tx ∙ tx', acks ∙ acks')
