-- ===== src/Utf8/Tests.antt =====
-- Strings at the borders of the encoding, and the theorems at concrete inputs.
use paho_cpp_static.Utf8.Exact.{IsMqttString, is_valid_mqtt_string_exact}
use paho_cpp_static.Utf8.{is_valid_mqtt_string}
use paho_cpp_static.Prelude.{true, [], false, List, ◌∷◌, ℕ, ◌≡◌, ◌↔◌, refl, arith}

overlong_nul : is_valid_mqtt_string (0xC0 ∷ 0x80 ∷ []) ≡ false
unfolding is_valid_mqtt_string
overlong_nul = refl

surrogate : is_valid_mqtt_string (0xED ∷ 0xA0 ∷ 0x80 ∷ []) ≡ false
unfolding is_valid_mqtt_string
surrogate = refl

last_code_point : is_valid_mqtt_string (0xF4 ∷ 0x8F ∷ 0xBF ∷ 0xBF ∷ []) ≡ true
unfolding is_valid_mqtt_string
last_code_point = refl

abbrev e_acute : List ℕ
e_acute = 0x61 ∷ 0xC3 ∷ 0xA9 ∷ []

is_valid_mqtt_string_exact_example : (is_valid_mqtt_string e_acute ≡ true) ↔ IsMqttString e_acute
is_valid_mqtt_string_exact_example =
    is_valid_mqtt_string_exact e_acute (omega arith, (omega arith, (omega arith, tt)))
