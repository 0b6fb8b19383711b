-- ===== src/Ports/Ipv4/Exact.antt =====
-- The parser against the dotted quads.
use paho_cpp_static.Ports.Ipv4.Quad.{
  decimal, dotted_quad, starts_octet, decimal_from-append, quad_from, split_from_pos, none_from,
  hopeless, octets_of, starts_octet-append, split_from,
}
use paho_cpp_static.Prelude.{
  [], false, some, inl, true, none, inr, ℕ, List, ◌≡◌, Option, ◌++◌, ◌∷◌, Bool-cases, ◌*◌, ◌==◌,
  length, ◌+◌, arith, ◌-◌, ◌∙◌, refl, length-append, ◌≤◌, ◌%◌, Option-cases, append_assoc, sym,
}
use mathlib.Core.Option
use paho_cpp_static.Ports.Ipv4.{
  Ipv4, is_digit, parse_ipv4, parse_loop, end_octet, finish, ℕ, List, Option, ◌∷◌, length,
}

-- The end of the text.
last_octet :
    (octets field : List ℕ)
    → starts_octet field ≡ true
    → finish (end_octet octets (decimal field) (length field)) ≡ quad_from octets field []
unfolding end_octet finish starts_octet
last_octet octets field h = ground (arith, h, length-append octets (decimal field % 256 ∷ []))

small : (field : List ℕ) → starts_octet field ≡ true → decimal field ≤ 255
unfolding starts_octet
small field h = ground (arith, h)

-- A dot.
next_octet :
    (octets field text : List ℕ)
    → starts_octet field ≡ true
    → quad_from octets field (b'.' ∷ text)
      ≡ elim (end_octet octets (decimal field) (length field)) as (λ x. Option Ipv4) [
        | none ↦ none
        | some octets' ↦ quad_from octets' [] text
      ]
unfolding end_octet
next_octet octets field text h =
    let count = split_from_pos [] text in
    let sized = length-append octets (decimal field % 256 ∷ []) in
    elim (Option-cases (octets_of (split_from [] text))) [
      | inl e ↦ ground (arith, h, e, count, sized, small field h)
      | inr (os, e) ↦ ground (
        arith,
        h,
        e,
        count,
        sized,
        small field h,
        append_assoc octets (decimal field % 256 ∷ []) os,
      )
    ]

-- The next digit of a field.
grown : (field : List ℕ) (c : ℕ) → decimal (field ++ (c ∷ [])) ≡ decimal field * 10 + (c - b'0')
grown field c = decimal_from-append 0 field c

-- A dot, with the address of the text behind it.
dot_step :
    (text octets field : List ℕ)
    → starts_octet field ≡ true
    → ((os : List ℕ) → parse_loop text os 0 0 ≡ quad_from os [] text)
    → parse_loop (b'.' ∷ text) octets (decimal field) (length field)
      ≡ quad_from octets field (b'.' ∷ text)
unfolding parse_loop end_octet
dot_step text octets field h more =
    elim (Option-cases (end_octet octets (decimal field) (length field))) [
      | inl e ↦ rw e (sym (next_octet octets field text h ∙ rw e refl))
      | inr (os, e) ↦ rw (e, more os) (sym (next_octet octets field text h ∙ rw e refl))
    ]

-- A digit that is accepted, and one that is not.
digit_on :
    (text octets field : List ℕ) (c : ℕ)
    → is_digit c ≡ true
    → starts_octet (field ++ (c ∷ [])) ≡ true
    → parse_loop (c ∷ text) octets (decimal field) (length field)
      ≡ parse_loop text octets (decimal (field ++ (c ∷ []))) (length (field ++ (c ∷ [])))
unfolding parse_loop starts_octet
digit_on text octets field c digit e =
    ground
      (arith, digit, e, starts_octet-append field c, grown field c, length-append field (c ∷ []))

digit_off :
    (text octets field : List ℕ) (c : ℕ)
    → starts_octet field ≡ true
    → is_digit c ≡ true
    → starts_octet (field ++ (c ∷ [])) ≡ false
    → parse_loop (c ∷ text) octets (decimal field) (length field) ≡ none
unfolding parse_loop starts_octet
digit_off text octets field c h digit e = ground (arith, digit, e, h, starts_octet-append field c)

-- Any other character.
other_off :
    (text octets field : List ℕ) (c : ℕ)
    → is_digit c ≡ false
    → c == b'.' ≡ false
    → parse_loop (c ∷ text) octets (decimal field) (length field) ≡ none
unfolding parse_loop
other_off text octets field c digit dot = rw (digit, dot) refl

loop_end :
    (octets field : List ℕ)
    → parse_loop [] octets (decimal field) (length field)
      ≡ finish (end_octet octets (decimal field) (length field))
unfolding parse_loop
loop_end octets field = refl

starts_nil : starts_octet [] ≡ true
unfolding starts_octet
starts_nil = refl

loop-quad_from :
    (text octets field : List ℕ)
    → starts_octet field ≡ true
    → parse_loop text octets (decimal field) (length field) ≡ quad_from octets field text
loop-quad_from [] octets field h = loop_end octets field ∙ last_octet octets field h
loop-quad_from (c ∷ text) octets field h = elim (Bool-cases (c == b'.')) [
  | inl dot ↦
      let here : c ≡ b'.' = ground (arith, dot) in
      rw here (dot_step text octets field h (λ os. loop-quad_from text os [] starts_nil))
  | inr other ↦
      let same : quad_from octets field (c ∷ text) ≡ quad_from octets (field ++ (c ∷ [])) text =
        rw other refl in
      let off = λ (e : starts_octet (field ++ (c ∷ [])) ≡ false).
        none_from octets (field ++ (c ∷ [])) text (hopeless (field ++ (c ∷ [])) text e) in
      elim (Bool-cases (is_digit c)) [
        | inl digit ↦ elim (Bool-cases (starts_octet (field ++ (c ∷ [])))) [
          | inl e ↦
              digit_on text octets field c digit e
              ∙ loop-quad_from text octets (field ++ (c ∷ [])) e
              ∙ sym same
          | inr e ↦ digit_off text octets field c h digit e ∙ sym (same ∙ off e)
        ]
        | inr no_digit ↦
            other_off text octets field c no_digit other
            ∙ sym (same ∙ off (ground (arith, starts_octet-append field c, no_digit)))
      ]
]

-- parse_ipv4 accepts exactly the dotted quads, four fields between dots, each of one to three
-- decimal digits and at most 255, and returns their values as the octets.
pub parse_ipv4_exact :
    (text : List ℕ)
    → parse_ipv4 (some text) ≡ Option.map (λ os. record { octets = os }) (dotted_quad text)
unfolding parse_ipv4
parse_ipv4_exact text = loop-quad_from text [] [] starts_nil ∙ ground arith
