-- ===== src/Topic/Levels.antt =====
-- The levels of a topic name or filter, and what MQTT 3.1.1 section 4.7 says of them.
use paho_cpp_static.Topic.{next_level, no_wildcard, hash, slash, plus}
use paho_cpp_static.Prelude.{
  ℕ, List, [], ◌∷◌, Option, ◌≡◌, if◌then◌else◌, refl, true, some, ◌==◌, length, ◌⊎◌, ◌<◌, none,
  Bool-cases, false, arith, inl, inr, ◌≢◌,
}
use Prim.Native.Nat.{ℕ}

abbrev pub put_first : ℕ → List (List ℕ) → List (List ℕ)
put_first c [] = (c ∷ []) ∷ []
put_first c (level ∷ levels) = (c ∷ level) ∷ levels

-- The parts between the separators: one more than there are separators, each of any length.
unfoldable pub levels : List ℕ → List (List ℕ)
levels [] = [] ∷ []
levels (c ∷ rest) = if c == slash then [] ∷ levels rest else put_first c (levels rest)

-- A filter's levels: a level is free of wildcards, or is `+` alone, or is `#` alone and the last.
abbrev pub LevelOk : List ℕ → List (List ℕ) → Type 0
LevelOk level rest =
    (no_wildcard level ≡ true) ⊎ (level ≡ plus ∷ []) ⊎ ((level ≡ hash ∷ []) × (rest ≡ []))

abbrev pub LevelsOk : List (List ℕ) → Type 0
LevelsOk [] = Unit {0}
LevelsOk (level ∷ rest) = LevelOk level rest × LevelsOk rest

-- The matching of section 4.7.1: `#` stands for any number of levels, none included, `+` for one
-- level, and any other level for itself.
pub data Matches : List (List ℕ) → List (List ℕ) → Type 0 where
  done : Matches [] []
  multi : {f : List ℕ} {ts : List (List ℕ)} → f ≡ hash ∷ [] → Matches (f ∷ []) ts
  single :
      {f t : List ℕ} {fs ts : List (List ℕ)}
      → f ≡ plus ∷ []
      → Matches fs ts
      → Matches (f ∷ fs) (t ∷ ts)
  same : {f t : List ℕ} {fs ts : List (List ℕ)} → f ≡ t → Matches fs ts → Matches (f ∷ fs) (t ∷ ts)

-- `next_level` splits off the first of the levels.
abbrev pub Splits : List ℕ → List ℕ × Option (List ℕ) → Type 0
Splits s (level, none) = levels s ≡ level ∷ []
Splits s (level, some rest) = (levels s ≡ level ∷ levels rest) × (length rest < length s)

cons-Splits :
    (c : ℕ) (s : List ℕ) (r : List ℕ × Option (List ℕ))
    → (c == slash) ≡ false
    → Splits s r
    → Splits (c ∷ s) (c ∷ r.0, r.1)
unfolding levels
cons-Splits c s (level, none) e h = rw (e, h)
cons-Splits c s (level, some rest) e h = (rw (e, h.0), omega (arith, h.1))

pub next_level-Splits : (s : List ℕ) → Splits s (next_level s)
unfolding next_level levels
next_level-Splits [] = refl
next_level-Splits (c ∷ s) = elim (Bool-cases (c == slash)) [
  | inl e ↦ rw e (ground arith, omega arith)
  | inr e ↦ rw e (cons-Splits c s (next_level s) e (next_level-Splits s))
]

pub levels_nonempty : (s : List ℕ) → levels s ≢ []
unfolding levels
levels_nonempty [] = λ e. cc
levels_nonempty (c ∷ s) = go (levels s) (levels_nonempty s)
  where
    go : (ls : List (List ℕ)) → ls ≢ [] → (if c == slash then [] ∷ ls else put_first c ls) ≢ []
    go [] n = absurd (n refl)
    go (l ∷ ls) n = λ e. ground arith

pub levels_cases : (s : List ℕ) → (l : List ℕ) × (ls : List (List ℕ)) × (levels s ≡ l ∷ ls)
levels_cases s = go (levels s) (levels_nonempty s)
  where
    go : (xs : List (List ℕ)) → xs ≢ [] → (l : List ℕ) × (ls : List (List ℕ)) × (xs ≡ l ∷ ls)
    go [] n = absurd (n refl)
    go (l ∷ ls) n = (l, ls, refl)

pub levels-slash : (c : ℕ) (s : List ℕ) → (c == slash) ≡ true → levels (c ∷ s) ≡ [] ∷ levels s
unfolding levels
levels-slash c s e = rw e

pub levels_other :
    (c : ℕ) (s : List ℕ) → (c == slash) ≡ false → levels (c ∷ s) ≡ put_first c (levels s)
unfolding levels
levels_other c s e = rw e
