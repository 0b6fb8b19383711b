-- ===== src/Ports/Ipv4/Quad.antt =====
-- What a dotted quad is: the fields between the dots.
use mathlib.Core.Option.{Option}
use paho_cpp_static.Prelude.{
  ℕ, inl, false, [], some, inr, none, true, List, ◌≡◌, Bool, Option, ◌++◌, ◌≤◌, ◌∷◌, if◌then◌else◌,
  Bool-cases, ◌*◌, length, ◌&&◌, arith, leb, ◌==◌, ◌+◌, ◌∙◌, ◌-◌, refl, length-append,
}
use mathlib.Core.Option
use paho_cpp_static.Ports.Ipv4.{Ipv4, is_digit, List, ◌∷◌, Bool, length, leb}

abbrev pub all_digits : List ℕ → Bool
all_digits [] = true
all_digits (c ∷ field) = is_digit c && all_digits field

-- The number that decimal digits denote, behind those that denote `n`.
abbrev pub decimal_from : ℕ → List ℕ → ℕ
decimal_from n [] = n
decimal_from n (c ∷ field) = decimal_from (n * 10 + (c - b'0')) field

abbrev pub decimal : List ℕ → ℕ
decimal field = decimal_from 0 field

-- A field that is an octet, or can be the front of one.
unfoldable pub starts_octet : List ℕ → Bool
starts_octet field = all_digits field && (leb (length field) 3 && leb (decimal field) 255)

abbrev pub octet_of : List ℕ → Option ℕ
octet_of field = if starts_octet field && leb 1 (length field) then some (decimal field) else none

abbrev pub octets_of : List (List ℕ) → Option (List ℕ)
octets_of [] = some []
octets_of (field ∷ fields) = elim (octet_of field) [
  | none ↦ none
  | some n ↦ Option.map (◌∷◌ n) (octets_of fields)
]

-- The fields between the dots; `field` is the front of the first.
abbrev pub split_from : List ℕ → List ℕ → List (List ℕ)
split_from field [] = field ∷ []
split_from field (c ∷ text) =
    if c == b'.' then field ∷ split_from [] text else split_from (field ++ (c ∷ [])) text

-- A dotted quad: four fields, each of one to three decimal digits and at most 255.
abbrev pub dotted_quad : List ℕ → Option (List ℕ)
dotted_quad text = if length (split_from [] text) == 4 then octets_of (split_from [] text) else none

pub decimal_from-append :
    (n : ℕ) (field : List ℕ) (c : ℕ)
    → decimal_from n (field ++ (c ∷ [])) ≡ decimal_from n field * 10 + (c - b'0')
decimal_from-append n [] c = refl
decimal_from-append n (d ∷ field) c = decimal_from-append (n * 10 + (d - b'0')) field c

all_digits-append :
    (field : List ℕ) (c : ℕ) → all_digits (field ++ (c ∷ [])) ≡ all_digits field && is_digit c
all_digits-append [] c = ground arith
all_digits-append (d ∷ field) c = ground (arith, all_digits-append field c)

-- The test of a field with one more character.
pub starts_octet-append :
    (field : List ℕ) (c : ℕ)
    → starts_octet (field ++ (c ∷ [])) ≡ (
        starts_octet field
        && (is_digit c && (leb (length field + 1) 3 && leb (decimal field * 10 + (c - b'0')) 255)))
unfolding starts_octet
starts_octet-append field c =
    rw (all_digits-append field c, length-append field (c ∷ []), decimal_from-append 0 field c)
      (ground arith)

-- What starts no octet is part of none.
pub hopeless :
    (field text : List ℕ) → starts_octet field ≡ false → octets_of (split_from field text) ≡ none
hopeless field [] h = rw (h, octets_of) refl
hopeless field (c ∷ text) h = elim (Bool-cases (c == b'.')) [
  | inl e ↦ rw (e, octets_of) (rw (h, octets_of) refl)
  | inr e ↦ rw e (hopeless (field ++ (c ∷ [])) text (starts_octet-append field c ∙ rw h refl))
]

-- The address of the octets that are complete and of those in the text that is left.
abbrev pub quad_from : List ℕ → List ℕ → List ℕ → Option Ipv4
quad_from octets field text =
    if length octets + length (split_from field text) == 4
    then Option.map (λ os. record { octets = octets ++ os }) (octets_of (split_from field text))
    else none

pub none_from :
    (octets field text : List ℕ)
    → octets_of (split_from field text) ≡ none
    → quad_from octets field text ≡ none
none_from octets field text h = ground (arith, h)

pub split_from_pos : (field text : List ℕ) → 1 ≤ length (split_from field text)
split_from_pos field [] = omega arith
split_from_pos field (c ∷ text) =
    ground (arith, split_from_pos [] text, split_from_pos (field ++ (c ∷ [])) text)
