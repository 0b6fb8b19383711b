-- ===== src/Codec/Connect/Flags.antt =====
-- The flags byte of CONNECT as a sum of its bits.
use paho_cpp_static.Codec.Connect.{will_fits, bit, flag_sum}
use paho_cpp_static.Prelude.{
  ℕ, zero, suc, Bool, not, is_empty, true, false, if◌then◌else◌, ◌≤◌, ◌<◌, ◌+◌, ◌*◌, ◌≡◌, arith,
  bit_or, bit_and, all_below, agree_below, refl, ◌∙◌, ap,
}
use paho_cpp_static.Packet.{ConnectOptions, will_valid}
use paho_cpp_static.Codec.Encode.{connect_flags}

set_bit_5 : (b : ℕ) → b < 32 → bit_or b 0x20 ≡ b + 32
unfolding all_below
set_bit_5 = agree_below _ _ 32 refl

set_bit_6 : (b : ℕ) → b < 64 → bit_or b 0x40 ≡ b + 64
unfolding all_below
set_bit_6 = agree_below _ _ 64 refl

set_bit_7 : (b : ℕ) → b < 128 → bit_or b 0x80 ≡ b + 128
unfolding all_below
set_bit_7 = agree_below _ _ 128 refl

will_bits :
    (clean : Bool) (qos : ℕ)
    → qos ≤ 2
    → bit_or (bit_or (bit clean 2) 4) (bit_and qos 3 * 8) ≡ bit clean 2 + 4 + qos * 8
will_bits true zero h = refl
will_bits true (suc zero) h = refl
will_bits true (suc (suc zero)) h = refl
will_bits false zero h = refl
will_bits false (suc zero) h = refl
will_bits false (suc (suc zero)) h = refl
will_bits clean (suc (suc (suc n))) h = absurd (omega arith)

with_retain : (b : Bool) (x : ℕ) → x < 32 → (if b then bit_or x 0x20 else x) ≡ x + bit b 32
with_retain true x h = set_bit_5 x h
with_retain false x h = omega arith

with_password : (b : Bool) (x : ℕ) → x < 64 → (if b then bit_or x 0x40 else x) ≡ x + bit b 64
with_password true x h = set_bit_6 x h
with_password false x h = omega arith

with_username : (b : Bool) (x : ℕ) → x < 128 → (if b then bit_or x 0x80 else x) ≡ x + bit b 128
with_username true x h = set_bit_7 x h
with_username false x h = omega arith

-- The bits of the clean session and of the will.
abbrev low_bits : Bool → Bool → ℕ → Bool → ℕ
low_bits clean willed qos retain =
    if willed
    then (if retain
        then bit_or (bit_or (bit_or (bit clean 2) 4) (bit_and qos 3 * 8)) 0x20
        else bit_or (bit_or (bit clean 2) 4) (bit_and qos 3 * 8))
    else bit clean 2

low_bits_lem :
    (clean willed : Bool) (qos : ℕ) (retain : Bool)
    → (willed ≡ true → qos ≤ 2)
    → (low_bits clean willed qos retain ≡ bit clean 2 + bit willed (4 + qos * 8 + bit retain 32))
      × (low_bits clean willed qos retain < 64)
low_bits_lem clean false qos retain h = ground arith
low_bits_lem clean true qos retain h =
    let small = h refl in
    let bits = will_bits clean qos small in
    let all =
      with_retain retain (bit_or (bit_or (bit clean 2) 4) (bit_and qos 3 * 8))
        (rw bits (ground (arith, small))) in
    ground (arith, bits, all, small)

pub connect_flags_lem :
    (opts : ConnectOptions) → will_fits opts.will ≡ true → connect_flags opts ≡ flag_sum opts
unfolding connect_flags
connect_flags_lem opts h =
    let p = not (is_empty opts.password) in
    let u = not (is_empty opts.username) in
    let low = low_bits opts.clean_session (will_valid opts.will) opts.will.qos opts.will.retain in
    let (bits, small) =
      low_bits_lem opts.clean_session (will_valid opts.will) opts.will.qos opts.will.retain
        (λ e. ground (arith, h, e)) in
    let second = with_password p low small in
    with_username u (if p then bit_or low 0x40 else low) (rw second (ground (arith, small)))
    ∙ ap (λ (k : ℕ). k + bit u 128) (second ∙ ap (λ (k : ℕ). k + bit p 64) bits)
