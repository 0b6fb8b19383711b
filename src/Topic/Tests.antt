-- ===== src/Topic/Tests.antt =====
-- The examples of MQTT 3.1.1 section 4.7, and the theorems at concrete inputs.
use paho_cpp_static.Utf8.{is_valid_mqtt_string}
use paho_cpp_static.Topic.Match.{topic_matches_exact}
use paho_cpp_static.Utf8.Exact.{IsMqttString}
use paho_cpp_static.Topic.Valid.{is_valid_filter_exact, is_valid_topic_name_exact}
use paho_cpp_static.Topic.Levels.{LevelsOk, levels, Matches}
use paho_cpp_static.Topic.{
  topic_matches, is_valid_filter, is_valid_topic_name, dollar, is_wildcard, is_valid_mqtt_string,
}
use paho_cpp_static.Prelude.{
  true, [], false, All, List, ◌∷◌, ℕ, IsByte, ◌≡◌, refl, ◌↔◌, arith, ◌++◌, ◌≤◌, length, get_or,
}

abbrev sport : List ℕ
sport = 0x73 ∷ 0x70 ∷ []

abbrev sport_all : List ℕ
sport_all = sport ++ (0x2F ∷ 0x23 ∷ [])

abbrev sport_finals : List ℕ
sport_finals = sport ++ (0x2F ∷ 0x66 ∷ [])

abbrev plus_finals : List ℕ
plus_finals = 0x2B ∷ 0x2F ∷ 0x66 ∷ []

abbrev sys_finals : List ℕ
sys_finals = 0x24 ∷ 0x2F ∷ 0x66 ∷ []

parent_of_multi : topic_matches sport_all sport ≡ true
unfolding topic_matches
parent_of_multi = refl

single_level : topic_matches plus_finals sport_finals ≡ true
unfolding topic_matches
single_level = refl

hidden_from_wildcard : topic_matches plus_finals sys_finals ≡ false
unfolding topic_matches
hidden_from_wildcard = refl

misplaced_multi : is_valid_filter (0x23 ∷ 0x2F ∷ 0x66 ∷ []) ≡ false
unfolding is_valid_filter is_valid_mqtt_string
misplaced_multi = refl

abbrev plus_finals_bytes : All IsByte plus_finals
plus_finals_bytes = (omega arith, (omega arith, (omega arith, tt)))

is_valid_filter_exact_example : (is_valid_filter plus_finals ≡ true) ↔ (
    (1 ≤ length plus_finals)
    × (length plus_finals ≤ 65535)
    × IsMqttString plus_finals
    × LevelsOk (levels plus_finals))
is_valid_filter_exact_example = is_valid_filter_exact plus_finals plus_finals_bytes

is_valid_topic_name_exact_example : (is_valid_topic_name plus_finals ≡ true) ↔ (
    (1 ≤ length plus_finals)
    × (length plus_finals ≤ 65535)
    × IsMqttString plus_finals
    × All (λ c. is_wildcard c ≡ false) plus_finals)
is_valid_topic_name_exact_example = is_valid_topic_name_exact plus_finals plus_finals_bytes

plus_finals_ok : LevelsOk (levels plus_finals)
unfolding is_valid_filter is_valid_mqtt_string
plus_finals_ok = ((is_valid_filter_exact plus_finals plus_finals_bytes).0 accepted_filter).3
  where
    accepted_filter : is_valid_filter plus_finals ≡ true
    accepted_filter = refl

topic_matches_exact_example : (topic_matches plus_finals sport_finals ≡ true) ↔ (
    Matches (levels plus_finals) (levels sport_finals)
    × (get_or sport_finals 0 0 ≡ dollar → is_wildcard (get_or plus_finals 0 0) ≡ false))
topic_matches_exact_example =
    topic_matches_exact plus_finals sport_finals (λ e. ground arith) (λ e. ground arith)
      plus_finals_ok
