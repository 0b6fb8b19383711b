-- ===== src/Utf8/Scan.antt =====
-- One round of the check against RFC 3629's encoding of one code point.
use paho_cpp_static.Utf8.{lead_byte, continue_code_point, sequence, allowed}
use paho_cpp_static.Prelude.{
  ℕ, all_below, ◌<◌, if◌then◌else◌, some, Bool, List, leb, ltb, ◌==◌, bit_and, ◌≡◌, ◌+◌, ◌*◌, none,
  ◌&&◌, ◌∷◌, agree_below, ◌-◌, not, [], ◌/◌, ◌%◌, arith, refl, low_nibble, suc, All, IsByte, true,
  ◌++◌, Option-cases, ◌≤◌, inl, inr,
}
use Prim.Native.Nat.{ℕ, bit_and, suc}

-- U+0001 to U+10FFFF without the surrogates.
unfoldable pub is_scalar : ℕ → Bool
is_scalar c = leb 1 c && leb c 0x10FFFF && not (leb 0xD800 c && leb c 0xDFFF)

-- The encoding of a code point by RFC 3629, section 3.
unfoldable pub encode_char : ℕ → List ℕ
encode_char c =
    if ltb c 0x80
    then c ∷ []
    else if ltb c 0x800
    then (0xC0 + c / 64) ∷ (0x80 + c % 64) ∷ []
    else if ltb c 0x10000
    then (0xE0 + c / 4096) ∷ (0x80 + c / 64 % 64) ∷ (0x80 + c % 64) ∷ []
    else (0xF0 + c / 262144) ∷ (0x80 + c / 4096 % 64) ∷ (0x80 + c / 64 % 64) ∷ (0x80 + c % 64) ∷ []

-- The masks of the check in plain arithmetic.
module _ (b : ℕ) (h : b < 256) where
  mask_E0 : bit_and b 0xE0 ≡ b / 32 * 32
  unfolding all_below
  mask_E0 = agree_below (λ b. bit_and b 0xE0) (λ b. b / 32 * 32) 256 refl b h

  mask_F0 : bit_and b 0xF0 ≡ b / 16 * 16
  unfolding all_below
  mask_F0 = agree_below (λ b. bit_and b 0xF0) (λ b. b / 16 * 16) 256 refl b h

  mask_F8 : bit_and b 0xF8 ≡ b / 8 * 8
  unfolding all_below
  mask_F8 = agree_below (λ b. bit_and b 0xF8) (λ b. b / 8 * 8) 256 refl b h

  mask_1F : bit_and b 0x1F ≡ b % 32
  unfolding all_below
  mask_1F = agree_below (λ b. bit_and b 0x1F) (λ b. b % 32) 256 refl b h

  mask_07 : bit_and b 0x07 ≡ b % 8
  unfolding all_below
  mask_07 = agree_below (λ b. bit_and b 0x07) (λ b. b % 8) 256 refl b h

  mask_C0 : bit_and b 0xC0 ≡ b / 64 * 64
  unfolding all_below
  mask_C0 = agree_below (λ b. bit_and b 0xC0) (λ b. b / 64 * 64) 256 refl b h

  mask_3F : bit_and b 0x3F ≡ b % 64
  unfolding all_below
  mask_3F = agree_below (λ b. bit_and b 0x3F) (λ b. b % 64) 256 refl b h

  -- The lead bytes by ranges.
  pub lead_ranges : lead_byte b ≡ (
      if b == 0
      then none
      else if ltb b 128
      then some (0, b)
      else if ltb b 192
      then none
      else if ltb b 224
      then some (1, b - 192)
      else if ltb b 240
      then some (2, b - 224)
      else if ltb b 248
      then some (3, b - 240)
      else none)
  unfolding lead_byte
  lead_ranges = ground (arith, mask_E0, mask_F0, mask_F8, mask_1F, low_nibble b h, mask_07)

-- One step of the inner loop.
pub continue_step :
    (k c cont : ℕ) (rest : List ℕ)
    → cont < 256
    → continue_code_point (suc k) c (cont ∷ rest) ≡ (
        if leb 128 cont && ltb cont 192
        then continue_code_point k (c * 64 + (cont - 128)) rest
        else none)
unfolding continue_code_point
continue_step k c cont rest h = ground (arith, mask_C0 cont h, mask_3F cont h)

-- What one step of the inner loop accepts is a continuation byte.
continue_inv :
    (k c : ℕ) (rest : List ℕ) (p : ℕ × List ℕ)
    → All IsByte rest
    → continue_code_point (suc k) c rest ≡ some p
    → (x : ℕ) × (rest' : List ℕ) × (x < 64)
      × (rest ≡ (0x80 + x) ∷ rest')
      × All IsByte rest'
      × (continue_code_point k (c * 64 + x) rest' ≡ some p)
continue_inv k c [] p h e = unfold continue_code_point in cc
continue_inv k c (a ∷ rest) p h e =
    (a - 128, rest, ground (arith, s), ground (arith, s), h.1, ground (arith, s))
  where
    s :
        continue_code_point (suc k) c (a ∷ rest)
        ≡ (if leb 128 a && ltb a 192 then continue_code_point k (c * 64 + (a - 128)) rest else none)
    s = continue_step k c a rest h.0

continue_zero :
    (c : ℕ) (rest : List ℕ) (d : ℕ) (after : List ℕ)
    → continue_code_point 0 c rest ≡ some (d, after)
    → (c ≡ d) × (rest ≡ after)
unfolding continue_code_point
continue_zero c rest d after e = ground arith

sequence_inv :
    (lead : ℕ) (rest after : List ℕ) (k bits : ℕ)
    → lead_byte lead ≡ some (k, bits)
    → sequence lead rest ≡ some after
    → (d : ℕ) × (continue_code_point k bits rest ≡ some (d, after)) × (allowed k d ≡ true)
unfolding sequence
sequence_inv lead rest after k bits l e = elim (Option-cases (continue_code_point k bits rest)) [
  | inl s ↦ ground arith
  | inr ((d, a), s) ↦ (d, ground arith, ground arith)
]

-- The sequence is the encoding of a scalar value, with `after` behind it.
abbrev pub Encodes : List ℕ → List ℕ → Type 0
Encodes s after = (c : ℕ) × (is_scalar c ≡ true) × (s ≡ encode_char c ++ after)

module _ (lead : ℕ) (rest after : List ℕ) (h : All IsByte rest)
    (e : sequence lead rest ≡ some after) where
  pub one_byte :
      lead_byte lead ≡ some (0, lead) → 0 < lead → lead < 128 → Encodes (lead ∷ rest) after
  unfolding is_scalar encode_char
  one_byte l p q =
      let (d, s, a) = sequence_inv lead rest after 0 lead l e in
      let (same, behind) = continue_zero lead rest d after s in (lead, ground arith, ground arith)

  pub two_bytes :
      lead_byte lead ≡ some (1, lead - 192) → 192 ≤ lead → lead < 224 → Encodes (lead ∷ rest) after
  unfolding is_scalar encode_char allowed
  two_bytes l p q =
      let (d, s, a) = sequence_inv lead rest after 1 (lead - 192) l e in
      let (x, r, x_lt, is_x, h', s') = continue_inv 0 _ rest _ h s in
      let (same, behind) = continue_zero _ r d after s' in (d, ground arith, ground arith)

  pub three_bytes :
      lead_byte lead ≡ some (2, lead - 224) → 224 ≤ lead → lead < 240 → Encodes (lead ∷ rest) after
  unfolding is_scalar encode_char allowed
  three_bytes l p q =
      let (d, s, a) = sequence_inv lead rest after 2 (lead - 224) l e in
      let (x, r, x_lt, is_x, h', s') = continue_inv 1 _ rest _ h s in
      let (y, t, y_lt, is_y, h'', s'') = continue_inv 0 _ r _ h' s' in
      let (same, behind) = continue_zero _ t d after s'' in (d, ground arith, ground arith)

  pub four_bytes :
      lead_byte lead ≡ some (3, lead - 240) → 240 ≤ lead → lead < 248 → Encodes (lead ∷ rest) after
  unfolding is_scalar encode_char allowed
  four_bytes l p q =
      let (d, s, a) = sequence_inv lead rest after 3 (lead - 240) l e in
      let (x, r, x_lt, is_x, h', s') = continue_inv 2 _ rest _ h s in
      let (y, t, y_lt, is_y, h'', s'') = continue_inv 1 _ r _ h' s' in
      let (z, u, z_lt, is_z, h''', s''') = continue_inv 0 _ t _ h'' s'' in
      let (same, behind) = continue_zero _ u d after s''' in (d, ground arith, ground arith)
