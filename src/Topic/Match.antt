-- ===== src/Topic/Match.antt =====
-- `topic_matches` decides the matching of levels.
use paho_cpp_static.Topic.Levels.{
  Matches, done, multi, single, same, levels, Splits, next_level-Splits, put_first, levels_nonempty,
  LevelsOk,
}
use paho_cpp_static.Topic.{
  eq_bytes, is_single, hash, plus, match_loop, next_level, no_wildcard, topic_matches, slash,
  dollar, is_wildcard, match_round,
}
use paho_cpp_static.Prelude.{
  none, some, List, ℕ, Bool, ◌∷◌, ◌≡◌, [], true, ◌↔◌, false, ◌≢◌, arith, if◌then◌else◌, not, ◌&&◌,
  subst, length, ◌<◌, sym, Bool-cases, refl, inl, suc, inr, Option, zero, ◌==◌, get_or,
}

pub eq_bytes_iff : (xs ys : List ℕ) → (eq_bytes xs ys ≡ true) ↔ (xs ≡ ys)
unfolding eq_bytes
eq_bytes_iff [] [] = ground arith
eq_bytes_iff [] (y ∷ ys) = ground arith
eq_bytes_iff (x ∷ xs) [] = ground arith
eq_bytes_iff (x ∷ xs) (y ∷ ys) = ground (arith, eq_bytes_iff xs ys)

is_single_iff : (level : List ℕ) (c : ℕ) → (is_single level c ≡ true) ↔ (level ≡ c ∷ [])
is_single_iff [] c = ground arith
is_single_iff (x ∷ []) c = ground arith
is_single_iff (x ∷ y ∷ rest) c = ground arith

-- A filter's `#` is its last level.
abbrev pub HashLast : List (List ℕ) → Type 0
HashLast [] = Unit {0}
HashLast (f ∷ fs) = (f ≡ hash ∷ [] → fs ≡ []) × HashLast fs

-- The loop's answer on levels.
level_match : List (List ℕ) → List (List ℕ) → Bool
level_match [] [] = true
level_match [] (t ∷ ts) = false
level_match (f ∷ fs) [] = is_single f hash
level_match (f ∷ fs) (t ∷ ts) =
    if is_single f hash
    then true
    else if not (is_single f plus) && not (eq_bytes f t)
    then false
    else level_match fs ts

level_match-Matches :
    (fs ts : List (List ℕ)) → HashLast fs → level_match fs ts ≡ true → Matches fs ts
unfolding level_match
level_match-Matches [] [] h e = done
level_match-Matches [] (t ∷ ts) h e = absurd (ground arith)
level_match-Matches (f ∷ fs) [] h e =
    let is_hash : f ≡ hash ∷ [] = ground (arith, is_single_iff f hash) in
    subst (λ l. Matches (f ∷ l) []) (sym (h.0 is_hash)) (multi is_hash)
level_match-Matches (f ∷ fs) (t ∷ ts) h e = elim (Bool-cases (is_single f hash)) [
  | inl s ↦
      let is_hash = (is_single_iff f hash).0 s in
      subst (λ l. Matches (f ∷ l) (t ∷ ts)) (sym (h.0 is_hash)) (multi is_hash)
  | inr s ↦ elim (Bool-cases (is_single f plus)) [
    | inl p ↦
        single ((is_single_iff f plus).0 p) (level_match-Matches fs ts h.1 (ground (arith, s, p)))
    | inr p ↦
        same (ground (arith, s, p, eq_bytes_iff f t))
          (level_match-Matches fs ts h.1 (ground (arith, s, p)))
  ]
]

Matches-level_match : {fs ts : List (List ℕ)} → Matches fs ts → level_match fs ts ≡ true
unfolding level_match
Matches-level_match done = refl
Matches-level_match (multi {f} {ts = []} e) = ground (arith, is_single_iff f hash)
Matches-level_match (multi {f} {ts = t ∷ ts} e) = ground (arith, is_single_iff f hash)
Matches-level_match (single {f} {t} e m) =
    ground (arith, is_single_iff f plus, Matches-level_match m)
Matches-level_match (same {f} {t} e m) = ground (arith, eq_bytes_iff f t, Matches-level_match m)

-- The test on what follows a filter's level when the topic has ended.
put_first_cases :
    (c : ℕ) (ls : List (List ℕ))
    → ls ≢ []
    → (l : List ℕ) × (r : List (List ℕ)) × (ls ≡ l ∷ r) × (put_first c ls ≡ (c ∷ l) ∷ r)
put_first_cases c [] n = absurd (n refl)
put_first_cases c (l ∷ r) n = (l, r, refl, refl)

rest_is_hash : (s : List ℕ) → HashLast (levels s) → is_single s hash ≡ level_match (levels s) []
unfolding levels level_match
rest_is_hash [] h = refl
rest_is_hash (c ∷ []) h = ground arith
rest_is_hash (c ∷ d ∷ s) h = elim (Bool-cases (c == slash)) [
  | inl e ↦ ground arith
  | inr e ↦ elim (Bool-cases (d == slash)) [
    | inl e' ↦ ground (arith, levels_nonempty s, is_single_iff (c ∷ []) hash)
    | inr e' ↦
        let (l, r, p, q) = put_first_cases d (levels s) (levels_nonempty s) in
        ground (arith, e, e', q)
  ]
]

module _ (fuel : ℕ) (l m : List ℕ) where
  both_end : match_round (match_loop fuel) (l, none) (m, none) ≡ level_match (l ∷ []) (m ∷ [])
  unfolding match_round level_match
  both_end = ground arith

  filter_ends :
      (t' : List ℕ) (ts : List (List ℕ))
      → ts ≢ []
      → match_round (match_loop fuel) (l, none) (m, some t') ≡ level_match (l ∷ []) (m ∷ ts)
  unfolding match_round level_match
  filter_ends t' [] n = absurd (n refl)
  filter_ends t' (u ∷ ts) n = ground arith

  topic_ends :
      (f' : List ℕ)
      → HashLast (levels f')
      → match_round (match_loop fuel) (l, some f') (m, none) ≡ level_match (l ∷ levels f') (m ∷ [])
  unfolding match_round level_match
  topic_ends f' h = ground (arith, rest_is_hash f' h)

  both_go_on :
      (f' t' : List ℕ)
      → match_loop fuel f' t' ≡ level_match (levels f') (levels t')
      → match_round (match_loop fuel) (l, some f') (m, some t')
        ≡ level_match (l ∷ levels f') (m ∷ levels t')
  unfolding match_round level_match
  both_go_on f' t' ih = ground (arith, ih)

-- The code's loop on the texts is `level_match` on their levels.
match_loop-level_match :
    (fuel : ℕ) (f t : List ℕ)
    → length f < fuel
    → HashLast (levels f)
    → match_loop fuel f t ≡ level_match (levels f) (levels t)
unfolding match_loop
match_loop-level_match zero f t n h = absurd (omega arith)
match_loop-level_match (suc fuel) f t n h =
    round (next_level f) (next_level t) (next_level-Splits f) (next_level-Splits t)
      (λ f' t'. match_loop-level_match fuel f' t')
  where
    round :
        (a b : List ℕ × Option (List ℕ))
        → Splits f a
        → Splits t b
        → ((f' t' : List ℕ)
            → length f' < fuel
            → HashLast (levels f')
            → match_loop fuel f' t' ≡ level_match (levels f') (levels t'))
        → match_round (match_loop fuel) a b ≡ level_match (levels f) (levels t)
    round (l, none) (m, none) sa sb ih = rw (sa, sb) (both_end fuel l m)
    round (l, none) (m, some t') sa sb ih =
        rw (sa, sb.0) (filter_ends fuel l m t' (levels t') (levels_nonempty t'))
    round (l, some f') (m, none) sa sb ih =
        let h' = subst HashLast sa.0 h in rw (sa.0, sb) (topic_ends fuel l m f' h'.1)
    round (l, some f') (m, some t') sa sb ih =
        let h' = subst HashLast sa.0 h in
        rw (sa.0, sb.0) (both_go_on fuel l m f' t' (ih f' t' (omega (arith, sa.1)) h'.1))

LevelsOk-HashLast : (fs : List (List ℕ)) → LevelsOk fs → HashLast fs
unfolding no_wildcard
LevelsOk-HashLast [] h = tt
LevelsOk-HashLast (f ∷ fs) h = (λ e. ground arith, LevelsOk-HashLast fs h.1)

-- For a filter whose levels are well formed and a topic, neither empty: `topic_matches` holds
-- exactly when the levels match by section 4.7.1 and it is not the case that the topic begins with
-- `$` and the filter with a wildcard.
pub topic_matches_exact :
    (filter topic : List ℕ)
    → filter ≢ []
    → topic ≢ []
    → LevelsOk (levels filter)
    → (topic_matches filter topic ≡ true) ↔ (
        Matches (levels filter) (levels topic)
        × (get_or topic 0 0 ≡ dollar → is_wildcard (get_or filter 0 0) ≡ false))
unfolding topic_matches
topic_matches_exact [] topic nf nt ok = absurd (nf refl)
topic_matches_exact (c ∷ filter) [] nf nt ok = absurd (nt refl)
topic_matches_exact (c ∷ filter) (d ∷ topic) nf nt ok = (
  λ e. (level_match-Matches _ _ h (ground (arith, loop)), λ e'. ground arith),
  λ p. ground (arith, loop, Matches-level_match p.0),
)
  where
    h : HashLast (levels (c ∷ filter))
    h = LevelsOk-HashLast (levels (c ∷ filter)) ok

    loop :
        match_loop (suc (length (c ∷ filter))) (c ∷ filter) (d ∷ topic)
        ≡ level_match (levels (c ∷ filter)) (levels (d ∷ topic))
    loop =
        match_loop-level_match (suc (length (c ∷ filter))) (c ∷ filter) (d ∷ topic) (omega arith) h
