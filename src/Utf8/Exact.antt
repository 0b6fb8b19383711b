-- ===== src/Utf8/Exact.antt =====
-- The check accepts exactly the UTF-8 encodings of lists of scalar values without U+0000.
use paho_cpp_static.Utf8.Scan.{
  Encodes, lead_ranges, continue_step, is_scalar, encode_char, one_byte, two_bytes, three_bytes,
  four_bytes,
}
use Prim.Native.Nat.{ℕ, suc}
use paho_cpp_static.Utf8.{
  sequence, lead_byte, allowed, continue_code_point, scan, is_valid_mqtt_string,
}
use paho_cpp_static.Prelude.{
  ℕ, List, ◌<◌, All, ◌≡◌, ◌≤◌, IsByte, none, some, ◌-◌, arith, ◌*◌, ◌+◌, ◌∷◌, true, if◌then◌else◌,
  length, refl, suc, ◌==◌, ltb, ◌++◌, dec_lt, ◌/◌, Option-cases, ◌∙◌, ◌%◌, ◌↔◌, inl, subst, inr,
  sym, ap, [], zero,
}

refused :
    (lead : ℕ) (rest after : List ℕ) → lead_byte lead ≡ none → sequence lead rest ≡ some after → ⊥
unfolding sequence
refused lead rest after l e = ground arith

pub sequence-Encodes :
    (lead : ℕ) (rest after : List ℕ)
    → lead < 256
    → All IsByte rest
    → sequence lead rest ≡ some after
    → Encodes (lead ∷ rest) after
sequence-Encodes lead rest after b h e = elim (dec_lt lead 128) [
  | yes p ↦ elim (dec_lt 0 lead) [
    | yes z ↦ one_byte lead rest after h e (ground (arith, r)) z p
    | no z ↦ absurd (refused lead rest after (ground (arith, r)) e)
  ]
  | no p ↦ elim (dec_lt lead 192) [
    | yes p2 ↦ absurd (refused lead rest after (ground (arith, r)) e)
    | no p2 ↦ elim (dec_lt lead 224) [
      | yes p3 ↦ two_bytes lead rest after h e (ground (arith, r)) (omega arith) p3
      | no p3 ↦ elim (dec_lt lead 240) [
        | yes p4 ↦ three_bytes lead rest after h e (ground (arith, r)) (omega arith) p4
        | no p4 ↦ elim (dec_lt lead 248) [
          | yes p5 ↦ four_bytes lead rest after h e (ground (arith, r)) (omega arith) p5
          | no p5 ↦ absurd (refused lead rest after (ground (arith, r)) e)
        ]
      ]
    ]
  ]
]
  where
    r : lead_byte lead ≡ (
        if lead == 0
        then none
        else if ltb lead 128
        then some (0, lead)
        else if ltb lead 192
        then none
        else if ltb lead 224
        then some (1, lead - 192)
        else if ltb lead 240
        then some (2, lead - 224)
        else if ltb lead 248
        then some (3, lead - 240)
        else none)
    r = lead_ranges lead b

-- The other way: one round takes the encoding of a scalar value off the front.
continue_ok :
    (k c x : ℕ) (rest : List ℕ)
    → x < 64
    → continue_code_point (suc k) c ((0x80 + x) ∷ rest) ≡ continue_code_point k (c * 64 + x) rest
continue_ok k c x rest h = ground (arith, continue_step k c (0x80 + x) rest)

continue_end : (c : ℕ) (rest : List ℕ) → continue_code_point 0 c rest ≡ some (c, rest)
unfolding continue_code_point
continue_end c rest = refl

sequence_ok :
    (lead : ℕ) (rest after : List ℕ) (k bits d : ℕ)
    → lead_byte lead ≡ some (k, bits)
    → k ≤ length rest
    → continue_code_point k bits rest ≡ some (d, after)
    → allowed k d ≡ true
    → sequence lead rest ≡ some after
unfolding sequence
sequence_ok lead rest after k bits d l n s a = ground arith

scan_step :
    (fuel lead : ℕ) (rest after : List ℕ)
    → sequence lead rest ≡ some after
    → scan (suc fuel) (lead ∷ rest) ≡ scan fuel after
unfolding scan
scan_step fuel lead rest after e = ground arith

module _ (c : ℕ) (after : List ℕ) (ok : is_scalar c ≡ true) where
  takes_one : c < 128 → sequence c after ≡ some after
  unfolding is_scalar allowed
  takes_one p =
      sequence_ok c after after 0 c c (ground (arith, lead_ranges c)) (omega arith)
        (continue_end c after) (ground arith)

  takes_two : 128 ≤ c → c < 2048 → sequence (0xC0 + c / 64) ((0x80 + c % 64) ∷ after) ≡ some after
  unfolding is_scalar allowed
  takes_two p q =
      sequence_ok (0xC0 + c / 64) _ after 1 (c / 64) c (ground (arith, lead_ranges (0xC0 + c / 64)))
        (omega arith)
        (continue_ok 0 (c / 64) (c % 64) after (omega arith)
          ∙ ground (arith, continue_end (c / 64 * 64 + c % 64) after))
        (ground arith)

  takes_three :
      2048 ≤ c
      → c < 65536
      → sequence (0xE0 + c / 4096) ((0x80 + c / 64 % 64) ∷ (0x80 + c % 64) ∷ after) ≡ some after
  unfolding is_scalar allowed
  takes_three p q =
      sequence_ok (0xE0 + c / 4096) _ after 2 (c / 4096) c
        (ground (arith, lead_ranges (0xE0 + c / 4096))) (omega arith)
        (continue_ok 1 (c / 4096) (c / 64 % 64) _ (omega arith)
          ∙ continue_ok 0 _ (c % 64) after (omega arith)
          ∙ ground (arith, continue_end ((c / 4096 * 64 + c / 64 % 64) * 64 + c % 64) after))
        (ground arith)

  takes_four :
      65536 ≤ c
      → sequence
          (0xF0 + c / 262144)
          ((0x80 + c / 4096 % 64) ∷ (0x80 + c / 64 % 64) ∷ (0x80 + c % 64) ∷ after)
        ≡ some after
  unfolding is_scalar allowed
  takes_four p =
      sequence_ok (0xF0 + c / 262144) _ after 3 (c / 262144) c
        (ground (arith, lead_ranges (0xF0 + c / 262144))) (omega arith)
        (continue_ok 2 (c / 262144) (c / 4096 % 64) _ (omega arith)
          ∙ continue_ok 1 _ (c / 64 % 64) _ (omega arith)
          ∙ continue_ok 0 _ (c % 64) after (omega arith)
          ∙ ground (
            arith,
            continue_end (((c / 262144 * 64 + c / 4096 % 64) * 64 + c / 64 % 64) * 64 + c % 64)
                after,
          ))
        (ground arith)

  -- `scan` takes the encoding of one scalar value off the front of a string.
  scan-encode_char : (fuel : ℕ) → scan (suc fuel) (encode_char c ++ after) ≡ scan fuel after
  unfolding encode_char
  scan-encode_char fuel = elim (dec_lt c 128) [
    | yes p ↦ ground (arith, scan_step fuel c after after (takes_one p))
    | no p ↦ elim (dec_lt c 2048) [
      | yes q ↦ ground (arith, scan_step fuel _ _ after (takes_two (omega arith) q))
      | no q ↦ elim (dec_lt c 65536) [
        | yes r ↦ ground (arith, scan_step fuel _ _ after (takes_three (omega arith) r))
        | no r ↦ ground (arith, scan_step fuel _ _ after (takes_four (omega arith)))
      ]
    ]
  ]

  encode_char_nonempty : length after < length (encode_char c ++ after)
  unfolding encode_char
  encode_char_nonempty = ground arith

-- The text that a list of code points spells.
unfoldable pub encode_chars : List ℕ → List ℕ
encode_chars [] = []
encode_chars (c ∷ cs) = encode_char c ++ encode_chars cs

-- A string is well formed if it spells a list of scalar values without U+0000.
abbrev pub IsMqttString : List ℕ → Type 0
IsMqttString s = (cs : List ℕ) × All (λ c. is_scalar c ≡ true) cs × (s ≡ encode_chars cs)

scan-encode_chars :
    (cs : List ℕ) (fuel : ℕ)
    → All (λ c. is_scalar c ≡ true) cs
    → length (encode_chars cs) ≤ fuel
    → scan fuel (encode_chars cs) ≡ true
unfolding encode_chars
scan-encode_chars [] fuel h n = unfold scan in refl
scan-encode_chars (c ∷ cs) zero h n =
    absurd (omega (arith, encode_char_nonempty c (encode_chars cs) h.0))
scan-encode_chars (c ∷ cs) (suc fuel) h n =
    scan-encode_char c (encode_chars cs) h.0 fuel
    ∙ scan-encode_chars cs fuel h.1 (omega (arith, encode_char_nonempty c (encode_chars cs) h.0))

All-suffix : (front back : List ℕ) → All IsByte (front ++ back) → All IsByte back
All-suffix [] back h = h
All-suffix (x ∷ front) back h = All-suffix front back h.1

scan-IsMqttString : (fuel : ℕ) (s : List ℕ) → All IsByte s → scan fuel s ≡ true → IsMqttString s
unfolding encode_chars
scan-IsMqttString fuel [] h e = ([], tt, refl)
scan-IsMqttString zero (lead ∷ rest) h e = unfold scan in cc
scan-IsMqttString (suc fuel) (lead ∷ rest) h e = elim (Option-cases (sequence lead rest)) [
  | inl none_left ↦ unfold scan in ground arith
  | inr (after, taken) ↦
      let (c, scalar, spelt) = sequence-Encodes lead rest after h.0 h.1 taken in
      let bytes : All IsByte after =
        All-suffix (encode_char c) after (subst (λ l. All IsByte l) spelt h) in
      let again : scan fuel after ≡ true = unfold scan in ground arith in
      let (cs, scalars, tail) = scan-IsMqttString fuel after bytes again in
      (c ∷ cs, (scalar, scalars), spelt ∙ ap (◌++◌ (encode_char c)) tail)
]

-- Of the strings of bytes, `is_valid_mqtt_string` accepts exactly the RFC 3629 encodings of lists
-- of code points from U+0001 to U+10FFFF without surrogates: no overlong, truncated or stray
-- sequence, and each well-formed one.
pub is_valid_mqtt_string_exact :
    (s : List ℕ) → All IsByte s → (is_valid_mqtt_string s ≡ true) ↔ IsMqttString s
unfolding is_valid_mqtt_string
is_valid_mqtt_string_exact s h = (
  λ e. scan-IsMqttString (length s) s h e,
  λ w.
      subst (λ t. scan (length t) t ≡ true) (sym (w.2)) (scan-encode_chars w.0 _ w.1 (omega arith)),
)
