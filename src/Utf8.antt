-- ===== src/Utf8.antt =====
-- src/utf8.cpp: is_valid_mqtt_string, the check of RFC 3629 and MQTT-1.5.3. A string is the list of
-- its bytes; the loop's index is the rest of the list from it on.
pub mod Scan
pub mod Exact
mod Tests
use paho_cpp_static.Prelude.{
  ℕ, List, get_or, Bool, Option, length, not, if◌then◌else◌, some, ◌∷◌, true, false, ltb, ◌==◌, [],
  ◌&&◌, none, leb, ◌*◌, bit_and, ◌+◌, zero,
}
use Prim.Native.Nat.{ℕ, suc, bit_and}

abbrev surrogate_first : ℕ
surrogate_first = 0xD800

abbrev surrogate_last : ℕ
surrogate_last = 0xDFFF

abbrev max_code_point : ℕ
max_code_point = 0x10FFFF

-- `kSmallestFor[continuations]`.
abbrev smallest_for : ℕ → ℕ
smallest_for n = get_or (0x00 ∷ 0x80 ∷ 0x800 ∷ 0x10000 ∷ []) n 0

-- The continuation bytes that a lead byte announces, and the bits of the code point that it holds;
-- `none` where no sequence begins with it.
unfoldable pub lead_byte : ℕ → Option (ℕ × ℕ)
lead_byte lead =
    if lead == 0x00
    then none
    else if ltb lead 0x80
    then some (0, lead)
    else if bit_and lead 0xE0 == 0xC0
    then some (1, bit_and lead 0x1F)
    else if bit_and lead 0xF0 == 0xE0
    then some (2, bit_and lead 0x0F)
    else if bit_and lead 0xF8 == 0xF0
    then some (3, bit_and lead 0x07)
    else none

-- The inner loop over `continuations` bytes, with the bytes behind them. The two operands of the
-- source's `|` share no bit, so it is a sum; at most 21 bits are used, so nothing wraps.
unfoldable pub continue_code_point : ℕ → ℕ → List ℕ → Option (ℕ × List ℕ)
continue_code_point zero code_point rest = some (code_point, rest)
continue_code_point (suc k) code_point [] = none
continue_code_point (suc k) code_point (cont ∷ rest) =
    let more = continue_code_point k (code_point * 64 + bit_and cont 0x3F) rest in
    if bit_and cont 0xC0 == 0x80 then more else none

-- The three tests on the finished code point.
unfoldable pub allowed : ℕ → ℕ → Bool
allowed continuations code_point =
    not (ltb code_point (smallest_for continuations))
    && not (leb surrogate_first code_point && leb code_point surrogate_last)
    && leb code_point max_code_point

-- One round of the outer loop: `none` where it returns false, else the bytes behind the sequence.
unfoldable pub sequence : ℕ → List ℕ → Option (List ℕ)
sequence lead rest = elim (lead_byte lead) [
  | none ↦ none
  | some (continuations, bits) ↦
      if leb (suc (length rest)) continuations
      then none
      else elim (continue_code_point continuations bits rest) [
        | none ↦ none
        | some (code_point, after) ↦ if allowed continuations code_point then some after else none
      ]
]

-- The outer loop. Each round takes a byte at least, so `length s` rounds are enough.
unfoldable pub scan : ℕ → List ℕ → Bool
scan fuel [] = true
scan zero (lead ∷ rest) = false
scan (suc fuel) (lead ∷ rest) = elim (sequence lead rest) [
  | none ↦ false
  | some after ↦ scan fuel after
]

unfoldable pub is_valid_mqtt_string : List ℕ → Bool
unfolding scan sequence lead_byte continue_code_point allowed
is_valid_mqtt_string s = scan (length s) s
