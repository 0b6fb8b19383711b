-- ===== src/Codec/Connect.antt =====
-- CONNECT on the wire: which options are encoded, and as which bytes.
pub mod Flags
pub mod Size
pub mod Wire
use paho_cpp_static.Codec.Sizes.{
  will_length, password_length, username_length, checked_add, valid_qos, connect_remaining_length,
  add_or, utf8_size,
}
use paho_cpp_static.Error.{value, error, Result, invalid_argument, ◌>>=◌, Error}
use paho_cpp_static.Prelude.{
  ℕ, zero, suc, List, Bool, [], ◌∷◌, ◌++◌, ◌&&◌, ◌||◌, not, leb, is_empty, length, true, false,
  if◌then◌else◌, ◌≤◌, ◌<◌, ◌+◌, ◌*◌, ◌≡◌, arith, bit_or, bit_and, all_below, agree_below, refl, ◌∙◌,
  ap, length-append, inl, inr, Bool-cases,
}
use paho_cpp_static.Packet.{ConnectOptions, Will, will_valid}
use paho_cpp_static.Utf8.{is_valid_mqtt_string}
use paho_cpp_static.Codec.Encode.{connect_flags}
use paho_cpp_static.Codec.Wire.{field}
use paho_cpp_static.Codec.Stream.{be16}

-- A string of at most 65535 bytes that is UTF-8.
abbrev pub text_fits : List ℕ → Bool
text_fits s = leb (length s) 65535 && is_valid_mqtt_string s

abbrev pub will_fits : Will → Bool
will_fits will =
    not (will_valid will)
    || (leb will.qos 2 && text_fits will.topic && leb (length will.payload) 65535)

abbrev pub username_fits : ConnectOptions → Bool
username_fits opts = is_empty opts.username || text_fits opts.username

abbrev pub password_fits : ConnectOptions → Bool
password_fits opts =
    is_empty opts.password || (not (is_empty opts.username) && leb (length opts.password) 65535)

-- The options that the codec lets through: a password wants a user name. It does not look for
-- wildcards in the will topic, nor at the session that an empty client id wants; connect() does.
abbrev pub connectable : ConnectOptions → Bool
connectable opts =
    text_fits opts.client_id && (will_fits opts.will && (username_fits opts && password_fits opts))

abbrev pub bit : Bool → ℕ → ℕ
bit b n = if b then n else 0

-- The connect flags of MQTT 3.1.1, section 3.1.2.3, as a sum.
abbrev pub flag_sum : ConnectOptions → ℕ
flag_sum opts =
    bit opts.clean_session 2
    + bit (will_valid opts.will) (4 + opts.will.qos * 8 + bit opts.will.retain 32)
    + bit (not (is_empty opts.password)) 64
    + bit (not (is_empty opts.username)) 128

abbrev pub will_part : Will → List ℕ
will_part will = if will_valid will then field will.topic ++ field will.payload else []

abbrev pub optional_field : List ℕ → List ℕ
optional_field s = if not (is_empty s) then field s else []

-- The body of CONNECT, with what stands in the place of the password.
abbrev pub body_ending : ConnectOptions → List ℕ → List ℕ
body_ending opts secret =
    field (b'M' ∷ b'Q' ∷ b'T' ∷ b'T' ∷ [])
    ++ (4
        ∷ flag_sum opts
        ∷ (be16 opts.keep_alive_s
            ++ (field opts.client_id
                ++ (will_part opts.will ++ (optional_field opts.username ++ secret)))))

abbrev pub connect_body : ConnectOptions → List ℕ
connect_body opts = body_ending opts (optional_field opts.password)
