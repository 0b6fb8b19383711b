-- ===== src/Ports/Ipv4.antt =====
-- examples/ipv4.hpp: IPv4 addresses and their parser. A C string is the list of the characters in
-- front of its NUL; a null pointer is `none`.
pub mod Quad
pub mod Exact
use paho_cpp_static.Prelude.{
  ℕ, List, [], ◌∷◌, ◌++◌, Option, none, some, Bool, true, false, ◌&&◌, ◌||◌, not, leb, ltb, ◌==◌,
  if◌then◌else◌, length, ◌+◌, ◌*◌, ◌-◌, ◌%◌, ◌^◌, get_or,
}

-- Four octets, in the order in which they are written.
pub record Ipv4 : Type 0 where
  pub octets : List ℕ

abbrev pub unset : Ipv4
unset = record { octets = 0 ∷ 0 ∷ 0 ∷ 0 ∷ [] }

unfoldable pub to_uint32 : Ipv4 → ℕ
to_uint32 a =
    get_or a.octets 0 0 * 2 ^ 24
    + get_or a.octets 1 0 * 2 ^ 16
    + get_or a.octets 2 0 * 2 ^ 8
    + get_or a.octets 3 0

-- The end of an octet, which is cast to a byte; `none` is a rejection.
unfoldable pub end_octet : List ℕ → ℕ → ℕ → Option (List ℕ)
end_octet octets number digits =
    if digits == 0 || leb 4 (length octets) then none else some (octets ++ (number % 256 ∷ []))

-- What follows the loop.
unfoldable pub finish : Option (List ℕ) → Option Ipv4
finish none = none
finish (some octets) = if not (length octets == 4) then none else some (record { octets = octets })

abbrev pub is_digit : ℕ → Bool
is_digit c = leb b'0' c && leb c b'9'

-- The loop over the characters, with the octets that are complete, and the value and the number of
-- the digits of the current one.
unfoldable pub parse_loop : List ℕ → List ℕ → ℕ → ℕ → Option Ipv4
unfolding end_octet finish
parse_loop [] octets number digits = finish (end_octet octets number digits)
parse_loop (c ∷ text) octets number digits =
    let number' = (number * 10 + (c - b'0')) % 2 ^ 32 in
    let more = parse_loop text octets number' (digits + 1) in
    let next = elim (end_octet octets number digits) as (λ x. Option Ipv4) [
      | none ↦ none
      | some octets' ↦ parse_loop text octets' 0 0
    ] in
    if is_digit c
    then (if digits == 3 then none else if ltb 255 number' then none else more)
    else if c == b'.'
    then next
    else none

-- `out` is written on success only.
unfoldable pub parse_ipv4 : Option (List ℕ) → Option Ipv4
unfolding parse_loop
parse_ipv4 none = none
parse_ipv4 (some text) = parse_loop text [] 0 0

unfoldable pub ipv4 : Option (List ℕ) → Ipv4
unfolding parse_ipv4
ipv4 text = elim (parse_ipv4 text) [ none ↦ unset | some a ↦ a ]
