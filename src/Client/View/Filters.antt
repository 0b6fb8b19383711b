-- ===== src/Client/View/Filters.antt =====
-- Tables of subscriptions without a filter that stands in them twice.
use paho_cpp_static.Client.Tables.{erase_subscription, find_subscription, is_some}
use paho_cpp_static.Prelude.{
  Bool-cases, ◌≡◌, ◌++◌, false, [], inr, inl, List, ℕ, ◌∙◌, arith, ◌==◌, refl,
}
use paho_cpp_static.Topic.{eq_bytes}
use paho_cpp_static.Client.View.Entries.{find_subscription-SameSubs}
use paho_cpp_static.Client.View.{SameSubs, find_subscription, erase_subscription, List, ℕ, ◌∷◌}
use paho_cpp_static.Client.State.{Subscription}

abbrev pub AreApart : List Subscription → Type 0
AreApart [] = Unit {0}
AreApart (s ∷ table) = (is_some (find_subscription table s.filter) ≡ false) × AreApart table

eq_bytes_comm : (xs ys : List ℕ) → eq_bytes xs ys ≡ eq_bytes ys xs
unfolding eq_bytes
eq_bytes_comm [] [] = refl
eq_bytes_comm [] (y ∷ ys) = refl
eq_bytes_comm (x ∷ xs) [] = refl
eq_bytes_comm (x ∷ xs) (y ∷ ys) = ground (arith, eq_bytes_comm xs ys)

-- A filter that is neither in the table nor in the new entry is not in both.
find_subscription-miss :
    (table : List Subscription) (e : Subscription) (filter : List ℕ)
    → is_some (find_subscription table filter) ≡ false
    → eq_bytes e.filter filter ≡ false
    → is_some (find_subscription (table ++ (e ∷ [])) filter) ≡ false
unfolding find_subscription
find_subscription-miss [] e filter h g = rw g refl
find_subscription-miss (s ∷ table) e filter h g =
    ground (arith, find_subscription-miss table e filter)

pub AreApart-append :
    (table : List Subscription) (e : Subscription)
    → is_some (find_subscription table e.filter) ≡ false
    → AreApart table
    → AreApart (table ++ (e ∷ []))
unfolding find_subscription
AreApart-append [] e new h = (refl, tt)
AreApart-append (s ∷ table) e new h = (
  find_subscription-miss table e s.filter h.0
      (eq_bytes_comm e.filter s.filter ∙ (ground (arith, new))),
  AreApart-append table e (ground (arith, new)) h.1,
)

erase_subscription-miss :
    (sid : ℕ) (table : List Subscription) (filter : List ℕ)
    → is_some (find_subscription table filter) ≡ false
    → is_some (find_subscription (erase_subscription sid table) filter) ≡ false
unfolding find_subscription erase_subscription
erase_subscription-miss sid [] filter h = h
erase_subscription-miss sid (s ∷ table) filter h =
    ground (arith, erase_subscription-miss sid table filter)

pub AreApart-erase :
    (sid : ℕ) (table : List Subscription) → AreApart table → AreApart (erase_subscription sid table)
unfolding erase_subscription
AreApart-erase sid [] h = tt
AreApart-erase sid (s ∷ table) h = elim (Bool-cases (s.sub_id == sid)) [
  | inl e ↦ rw e h.1
  | inr e ↦ rw e (erase_subscription-miss sid table s.filter h.0, AreApart-erase sid table h.1)
]

pub AreApart-SameSubs :
    (table other : List Subscription) → SameSubs table other → AreApart table → AreApart other
AreApart-SameSubs [] [] h all = tt
AreApart-SameSubs [] (t ∷ ts) h all = absurd h
AreApart-SameSubs (s ∷ ss) [] h all = absurd h
AreApart-SameSubs (s ∷ ss) (t ∷ ts) h all = (
  rw h.0.0 (find_subscription-SameSubs ss ts s.filter h.1 ∙ all.0),
  AreApart-SameSubs ss ts h.1 all.1,
)
