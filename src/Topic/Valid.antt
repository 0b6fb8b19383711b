-- ===== src/Topic/Valid.antt =====
-- `is_valid_topic_name` and `is_valid_filter` accept exactly the names and filters of MQTT 3.1.1.
use paho_cpp_static.Utf8.{is_valid_mqtt_string}
use paho_cpp_static.Utf8.Exact.{encode_chars, IsMqttString, is_valid_mqtt_string_exact}
use paho_cpp_static.Utf8.Scan.{is_scalar, encode_char}
use paho_cpp_static.Topic.Levels.{
  put_first, LevelsOk, LevelOk, levels, levels_cases, levels-slash, levels_other, levels_nonempty,
}
use paho_cpp_static.Topic.{
  level_ok, no_wildcard, filter_loop, slash, is_valid_topic_name, is_valid_filter, is_wildcard,
  name_chars, is_valid_mqtt_string,
}
use paho_cpp_static.Prelude.{
  inl, inr, List, ℕ, ◌≢◌, ◌∷◌, false, All, true, ◌++◌, [], ◌<◌, ◌≡◌, ◌↔◌, refl, ap, sym, arith,
  append_assoc, append-nil, Bool-cases, ◌==◌, if◌then◌else◌, subst, IsByte, All-append, ◌≤◌, length,
}

-- A level that is complete, as the last one and with others behind it.
last_level : (level : List ℕ) → (level_ok level true ≡ true) ↔ LevelOk level []
unfolding level_ok no_wildcard
last_level [] = ground arith
last_level (c ∷ []) = ground arith
last_level (c ∷ d ∷ level) = ground arith

inner_level :
    (level l : List ℕ) (ls : List (List ℕ)) → (level_ok level false ≡ true) ↔ LevelOk level (l ∷ ls)
unfolding level_ok no_wildcard
inner_level [] l ls = ground arith
inner_level (c ∷ []) l ls = ground arith
inner_level (c ∷ d ∷ level) l ls = ground arith

-- The bytes that the loop holds already, put before the levels of what is left.
attach : List ℕ → List (List ℕ) → List (List ℕ)
attach level [] = level ∷ []
attach level (l ∷ ls) = (level ++ l) ∷ ls

attach-put_first :
    (level : List ℕ) (c : ℕ) (ls : List (List ℕ))
    → ls ≢ []
    → attach level (put_first c ls) ≡ attach (level ++ c ∷ []) ls
unfolding attach
attach-put_first level c [] n = absurd (n refl)
attach-put_first level c (l ∷ ls) n = ap (λ x. x ∷ ls) (sym (append_assoc level (c ∷ []) l))

attach_nil : (ls : List (List ℕ)) → ls ≢ [] → attach [] ls ≡ ls
unfolding attach
attach_nil [] n = absurd (n refl)
attach_nil (l ∷ ls) n = refl

loop_slash :
    (level rest : List ℕ) (c : ℕ)
    → (c == slash) ≡ true
    → filter_loop level (c ∷ rest) ≡ (if level_ok level false then filter_loop [] rest else false)
unfolding filter_loop
loop_slash level rest c e = ground arith

loop_other :
    (level rest : List ℕ) (c : ℕ)
    → 0 < c
    → (c == slash) ≡ false
    → filter_loop level (c ∷ rest) ≡ filter_loop (level ++ c ∷ []) rest
unfolding filter_loop
loop_other level rest c p e = ground arith

slash_case :
    (level rest : List ℕ)
    → ((filter_loop [] rest ≡ true) ↔ LevelsOk (attach [] (levels rest)))
    → ((if level_ok level false then filter_loop [] rest else false) ≡ true)
      ↔ LevelsOk (attach level ([] ∷ levels rest))
unfolding attach
slash_case level rest ih =
    let (l, ls, is) = levels_cases rest in
    let here : (level_ok level false ≡ true) ↔ LevelOk level (levels rest) =
      subst (λ x. (level_ok level false ≡ true) ↔ LevelOk level x) (sym is)
        (inner_level level l ls) in
    let ih' : (filter_loop [] rest ≡ true) ↔ LevelsOk (levels rest) =
      subst (λ x. (filter_loop [] rest ≡ true) ↔ LevelsOk x)
        (attach_nil (levels rest) (levels_nonempty rest)) ih in
    rw (append-nil level) (
      λ e. (here.0 (ground arith), ih'.0 (ground arith)),
      λ p. let a = here.1 p.0 in let b = ih'.1 p.1 in ground (arith, a, b),
    )

filter_loop_lem :
    (level rest : List ℕ)
    → All (λ c. 0 < c) rest
    → (filter_loop level rest ≡ true) ↔ LevelsOk (attach level (levels rest))
filter_loop_lem level [] h =
    unfold filter_loop levels attach in
    rw (append-nil level) (λ e. ((last_level level).0 e, tt), λ p. (last_level level).1 p.0)
filter_loop_lem level (c ∷ rest) h = elim (Bool-cases (c == slash)) [
  | inl e ↦
      rw (loop_slash level rest c e, levels-slash c rest e)
        (slash_case level rest (filter_loop_lem [] rest h.1))
  | inr e ↦
      rw
        (
          loop_other level rest c h.0 e,
          levels_other c rest e,
          attach-put_first level c (levels rest) (levels_nonempty rest),
        )
        (filter_loop_lem (level ++ c ∷ []) rest h.1)
]

-- No byte of a well-formed string is 0.
encode_char_positive : (c : ℕ) → is_scalar c ≡ true → All (λ b. 0 < b) (encode_char c)
unfolding is_scalar encode_char
encode_char_positive c h = ground arith

encode_chars_positive :
    (cs : List ℕ) → All (λ c. is_scalar c ≡ true) cs → All (λ b. 0 < b) (encode_chars cs)
unfolding encode_chars
encode_chars_positive [] h = tt
encode_chars_positive (c ∷ cs) h =
    All-append (λ b. 0 < b) (encode_char c) (encode_chars cs) (encode_char_positive c h.0)
      (encode_chars_positive cs h.1)

IsMqttString-positive : (s : List ℕ) → IsMqttString s → All (λ b. 0 < b) s
IsMqttString-positive s w =
    subst (λ t. All (λ b. 0 < b) t) (sym (w.2)) (encode_chars_positive w.0 w.1)

-- Of the strings of bytes, `is_valid_filter` accepts exactly those of 1 to 65535 bytes that are
-- well-formed MQTT strings and in whose levels `+` stands alone, and `#` alone and last.
pub is_valid_filter_exact :
    (filter : List ℕ)
    → All IsByte filter
    → (is_valid_filter filter ≡ true) ↔ (
        (1 ≤ length filter)
        × (length filter ≤ 65535)
        × IsMqttString filter
        × LevelsOk (levels filter))
unfolding is_valid_filter
is_valid_filter_exact [] h = (λ e. absurd (ground arith), λ p. absurd (omega arith))
is_valid_filter_exact (c ∷ s) h = (λ e. accepted (ground arith) (ground arith) (ground arith), back)
  where
    text : (is_valid_mqtt_string (c ∷ s) ≡ true) ↔ IsMqttString (c ∷ s)
    text = is_valid_mqtt_string_exact (c ∷ s) h

    parts : IsMqttString (c ∷ s) → (filter_loop [] (c ∷ s) ≡ true) ↔ LevelsOk (levels (c ∷ s))
    parts w =
        subst (λ x. (filter_loop [] (c ∷ s) ≡ true) ↔ LevelsOk x)
          (attach_nil (levels (c ∷ s)) (levels_nonempty (c ∷ s)))
          (filter_loop_lem [] (c ∷ s) (IsMqttString-positive (c ∷ s) w))

    accepted :
        length (c ∷ s) ≤ 65535
        → is_valid_mqtt_string (c ∷ s) ≡ true
        → filter_loop [] (c ∷ s) ≡ true
        → (1 ≤ length (c ∷ s))
          × (length (c ∷ s) ≤ 65535)
          × IsMqttString (c ∷ s)
          × LevelsOk (levels (c ∷ s))
    accepted n v l = (omega arith, n, text.0 v, (parts (text.0 v)).0 l)

    back :
        (1 ≤ length (c ∷ s))
          × (length (c ∷ s) ≤ 65535)
          × IsMqttString (c ∷ s)
          × LevelsOk (levels (c ∷ s))
        → is_valid_filter (c ∷ s) ≡ true
    back (m, n, w, l) = let v = text.1 w in let f = (parts w).1 l in ground (arith, n, v, f)

name_chars-All : (s : List ℕ) → name_chars s ≡ true → All (λ b. is_wildcard b ≡ false) s
unfolding name_chars
name_chars-All [] e = tt
name_chars-All (c ∷ s) e = (ground arith, name_chars-All s (ground arith))

All-name_chars :
    (s : List ℕ) → All (λ b. 0 < b) s → All (λ b. is_wildcard b ≡ false) s → name_chars s ≡ true
unfolding name_chars
All-name_chars [] p h = refl
All-name_chars (c ∷ s) p h = ground (arith, All-name_chars s p.1 h.1)

-- Of the strings of bytes, `is_valid_topic_name` accepts exactly those of 1 to 65535 bytes that are
-- well-formed MQTT strings and hold no wildcard byte.
pub is_valid_topic_name_exact :
    (name : List ℕ)
    → All IsByte name
    → (is_valid_topic_name name ≡ true) ↔ (
        (1 ≤ length name)
        × (length name ≤ 65535)
        × IsMqttString name
        × All (λ c. is_wildcard c ≡ false) name)
unfolding is_valid_topic_name
is_valid_topic_name_exact [] h = (λ e. absurd (ground arith), λ p. absurd (omega arith))
is_valid_topic_name_exact (c ∷ s) h =
    (λ e. accepted (ground arith) (ground arith) (ground arith), back)
  where
    text : (is_valid_mqtt_string (c ∷ s) ≡ true) ↔ IsMqttString (c ∷ s)
    text = is_valid_mqtt_string_exact (c ∷ s) h

    accepted :
        length (c ∷ s) ≤ 65535
        → is_valid_mqtt_string (c ∷ s) ≡ true
        → name_chars (c ∷ s) ≡ true
        → (1 ≤ length (c ∷ s))
          × (length (c ∷ s) ≤ 65535)
          × IsMqttString (c ∷ s)
          × All (λ b. is_wildcard b ≡ false) (c ∷ s)
    accepted n v l = (omega arith, n, text.0 v, name_chars-All (c ∷ s) l)

    back :
        (1 ≤ length (c ∷ s))
          × (length (c ∷ s) ≤ 65535)
          × IsMqttString (c ∷ s)
          × All (λ b. is_wildcard b ≡ false) (c ∷ s)
        → is_valid_topic_name (c ∷ s) ≡ true
    back (m, n, w, l) =
        let v = text.1 w in
        let f = All-name_chars (c ∷ s) (IsMqttString-positive (c ∷ s) w) l in
        ground (arith, n, v, f)
