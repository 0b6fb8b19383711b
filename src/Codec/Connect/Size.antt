-- ===== src/Codec/Connect/Size.antt =====
-- connect_remaining_length: which options it lets through, and the length that it returns.
use paho_cpp_static.Codec.Connect.{
  connectable, text_fits, will_fits, optional_field, username_fits, will_part, password_fits,
}
use paho_cpp_static.Codec.Sizes.{
  will_length, password_length, username_length, checked_add, valid_qos, connect_remaining_length,
  add_or, utf8_size,
}
use paho_cpp_static.Error.{value, error, Result, invalid_argument, ◌>>=◌, Error}
use paho_cpp_static.Prelude.{
  ℕ, List, Bool, ◌&&◌, ◌||◌, not, leb, is_empty, length, true, false, if◌then◌else◌, ◌≤◌, ◌+◌, ◌≡◌,
  arith, refl, ◌∙◌, length-append, inl, inr, Bool-cases,
}
use paho_cpp_static.Packet.{ConnectOptions, Will, will_valid}
use paho_cpp_static.Utf8.{is_valid_mqtt_string}
use paho_cpp_static.Codec.Wire.{field}

abbrev checked : Bool → ℕ → Result ℕ
checked fine total = if fine then value total else error invalid_argument

will_stage :
    (will : Will) (total : ℕ)
    → total ≤ 100000
    → (if will_valid will then will_length will total else value total)
      ≡ checked (will_fits will) (total + length (will_part will))
unfolding will_length checked_add valid_qos
will_stage will total h = ground (arith, length-append (field will.topic) (field will.payload))

username_stage :
    (username : List ℕ) (total : ℕ)
    → total ≤ 300000
    → (if not (is_empty username) then username_length username total else value total)
      ≡ checked (is_empty username || text_fits username) (total + length (optional_field username))
unfolding username_length checked_add
username_stage username total h = ground arith

password_stage :
    (username password : List ℕ) (total : ℕ)
    → total ≤ 400000
    → (if not (is_empty password) then password_length username password total else value total)
      ≡ checked
          (is_empty password || (not (is_empty username) && leb (length password) 65535))
          (total + length (optional_field password))
unfolding password_length checked_add
password_stage username password total h = ground arith

bind_checked :
    (r : Result ℕ) (fine fine' : Bool) (n m : ℕ) (f : ℕ → Result ℕ)
    → r ≡ checked fine n
    → (fine ≡ true → f n ≡ checked fine' m)
    → (r >>= f) ≡ checked (fine && fine') m
bind_checked r true fine' n m f e h = rw e (h refl)
bind_checked r false fine' n m f e h = rw e refl

pub will_part_small : (will : Will) → will_fits will ≡ true → length (will_part will) ≤ 131074
will_part_small will h = ground (arith, h, length-append (field will.topic) (field will.payload))

pub optional_small :
    (s : List ℕ) → (is_empty s || text_fits s) ≡ true → length (optional_field s) ≤ 65537
optional_small s h = ground (arith, h)

abbrev then_password : ConnectOptions → ℕ → Result ℕ
then_password opts total =
    if not (is_empty opts.password)
    then password_length opts.username opts.password total
    else value total

abbrev then_username : ConnectOptions → ℕ → Result ℕ
then_username opts total =
    (if not (is_empty opts.username) then username_length opts.username total else value total)
    >>= then_password opts

-- The options behind the client id, from `total` bytes on.
options_length :
    (opts : ConnectOptions) (total : ℕ)
    → total ≤ 100000
    → ((if will_valid opts.will then will_length opts.will total else value total)
        >>= then_username opts)
      ≡ checked (will_fits opts.will && (username_fits opts && password_fits opts)) (
          total
          + length (will_part opts.will)
          + length (optional_field opts.username)
          + length (optional_field opts.password))
options_length opts total h =
    let will = total + length (will_part opts.will) in
    let user = will + length (optional_field opts.username) in
    let whole = user + length (optional_field opts.password) in
    bind_checked _ (will_fits opts.will) (username_fits opts && password_fits opts) will whole
      (then_username opts) (will_stage opts.will total h)
      (λ w.
        bind_checked _ (username_fits opts) (password_fits opts) user whole (then_password opts)
          (username_stage opts.username will (omega (arith, h, will_part_small opts.will w)))
          (λ u.
            password_stage opts.username opts.password user
              (omega (arith, h, will_part_small opts.will w, optional_small opts.username u))))

added :
    (e : Error) (total add : ℕ) → total + add ≤ 100000 → add_or e total add ≡ value (total + add)
unfolding checked_add
added e total add h = ground (arith, h)

pub connect_length :
    (opts : ConnectOptions)
    → connect_remaining_length opts
      ≡ checked (connectable opts) (
          12
          + length opts.client_id
          + length (will_part opts.will)
          + length (optional_field opts.username)
          + length (optional_field opts.password))
unfolding connect_remaining_length
connect_length opts = elim (Bool-cases (leb (length opts.client_id) 65535)) [
  | inr long ↦ rw long refl
  | inl short ↦ elim (Bool-cases (is_valid_mqtt_string opts.client_id)) [
    | inr bad ↦ rw (short, bad) refl
    | inl fine ↦
        let with_id : add_or invalid_argument 10 (utf8_size (length opts.client_id))
            ≡ value (12 + length opts.client_id) =
          added invalid_argument 10 (utf8_size (length opts.client_id)) (ground (arith, short))
          ∙ ground arith in
        rw (short, fine, with_id)
          (options_length opts (12 + length opts.client_id) (ground (arith, short)))
  ]
]
