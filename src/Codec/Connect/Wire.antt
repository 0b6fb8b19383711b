-- ===== src/Codec/Connect/Wire.antt =====
-- The bytes of CONNECT.
use paho_cpp_static.Vbi.{encode_loop}
use paho_cpp_static.Header.{to_byte}
use paho_cpp_static.Prelude.{
  ℕ, List, Bool, [], ◌∷◌, ◌++◌, ◌||◌, not, is_empty, length, true, false, if◌then◌else◌, ◌≤◌, ◌+◌,
  ◌≡◌, arith, Bool-cases, inl, inr, refl, append-nil, length-append, ap, ◌∙◌, sym,
}
use paho_cpp_static.Error.{Result, value, error, invalid_argument}
use paho_cpp_static.Packet.{ConnectOptions, Will, max_remaining_length, will_valid, connect}
use paho_cpp_static.Codec.Encode.{encode_connect, write_will, write_binary, write_string}
use paho_cpp_static.Codec.Wire.{field, packet, header, fitted}
use paho_cpp_static.Codec.Connect.{
  connectable, connect_body, password_fits, will_part, text_fits, will_fits, optional_field,
  flag_sum, body_ending,
}
use paho_cpp_static.Codec.Connect.Size.{will_part_small, optional_small, connect_length}
use paho_cpp_static.Codec.Connect.Flags.{connect_flags_lem}
use paho_cpp_static.Codec.Writes.{
  Writes, Writes-then, Writes-string, Writes-u8, Writes-nothing, Ends-fresh, Ends-then,
  Writes-header, Writes-u16, Ends-written,
}
use paho_cpp_static.Codec.Stream.{ByteStream}

body_length :
    (opts : ConnectOptions)
    → length (connect_body opts)
      ≡ 12
        + length opts.client_id
        + length (will_part opts.will)
        + length (optional_field opts.username)
        + length (optional_field opts.password)
body_length opts =
    let secret = optional_field opts.username ++ optional_field opts.password in
    omega (
      arith,
      length-append opts.client_id (will_part opts.will ++ secret),
      length-append (will_part opts.will) secret,
      length-append (optional_field opts.username) (optional_field opts.password),
    )

body_small :
    (opts : ConnectOptions)
    → connectable opts ≡ true
    → length (connect_body opts) ≤ max_remaining_length
body_small opts h =
    let will = will_part_small opts.will (ground (arith, h)) in
    let user = optional_small opts.username (ground (arith, h)) in
    let id : length opts.client_id ≤ 65535 = ground (arith, h) in
    let pass : length (optional_field opts.password) ≤ 65537 = ground (arith, h) in
    omega (arith, body_length opts, will, user, id, pass)

module _ (bs : ByteStream) where
  Writes-when :
      (b : Bool) (bytes : List ℕ) (f : bs.Writer → Result bs.Writer)
      → (b ≡ true → Writes bs bytes f)
      → Writes bs (if b then bytes else []) (λ w. if b then f w else value w)
  Writes-when true bytes f h = h refl
  Writes-when false bytes f h = Writes-nothing bs

  Writes-binary : (s : List ℕ) → length s ≤ 65535 → Writes bs (field s) (write_binary bs s)
  unfolding write_binary write_string
  Writes-binary s h = Writes-string bs s h

  Writes-will :
      (will : Will)
      → will_fits will ≡ true
      → Writes bs (will_part will) (λ w. if will_valid will then write_will bs will w else value w)
  unfolding write_will
  Writes-will will h =
      Writes-when (will_valid will) (field will.topic ++ field will.payload) (write_will bs will)
        (λ e.
          Writes-then bs (field will.topic) (field will.payload) (write_string bs will.topic)
            (write_binary bs will.payload) (Writes-string bs will.topic (ground (arith, h, e)))
            (Writes-binary will.payload (ground (arith, h, e))))

  Writes-username :
      (s : List ℕ)
      → (is_empty s || text_fits s) ≡ true
      → Writes bs
          (optional_field s)
          (λ w. if not (is_empty s) then write_string bs s w else value w)
  Writes-username s h =
      Writes-when (not (is_empty s)) (field s) (write_string bs s)
        (λ e. Writes-string bs s (ground (arith, h, e)))

  Writes-password :
      (opts : ConnectOptions)
      → password_fits opts ≡ true
      → Writes bs
          (optional_field opts.password)
          (λ w. if not (is_empty opts.password) then write_binary bs opts.password w else value w)
  Writes-password opts h =
      Writes-when (not (is_empty opts.password)) (field opts.password)
        (write_binary bs opts.password) (λ e. Writes-binary opts.password (ground (arith, h, e)))

  -- encode_connect encodes exactly the options of which the following holds: the client id is a UTF-8
  -- string of at most 65535 bytes, which may be empty; a will that is set has a QoS of at most 2, a
  -- UTF-8 topic and a payload, each of at most 65535 bytes; a user name that is set is a UTF-8 string
  -- of at most 65535 bytes; and a password that is set has at most 65535 bytes and a user name beside
  -- it. What it returns is the fixed header, the protocol's name and level, the connect flags as the
  -- standard sums them up, the keep-alive time, the client id, and the will, the user name and the
  -- password where they are set, or the report that they do not fit into the span.
  pub encode_connect_exact :
      (size : ℕ) (opts : ConnectOptions)
      → encode_connect bs size opts ≡ (
          if connectable opts
          then fitted size (
              packet
                (header connect false 0 false (length (connect_body opts)))
                (connect_body opts))
          else error invalid_argument)
  unfolding encode_connect
  encode_connect_exact size opts = elim (Bool-cases (connectable opts)) [
    | inr e ↦ rw (connect_length opts, e) refl
    | inl e ↦
        let n = length (connect_body opts) in
        let flags = connect_flags_lem opts (ground (arith, e)) in
        rw (connect_length opts, e, sym (body_length opts), flags)
          (Ends-fresh bs size _ _ (
              Ends-then bs _ _ _ _ (Writes-header bs connect n false 0 false (body_small opts e)) (
                Ends-then bs _ _ _ _
                  (Writes-string bs (b'M' ∷ b'Q' ∷ b'T' ∷ b'T' ∷ []) (omega arith))
                  (Ends-then bs _ _ _ _ (Writes-u8 bs 4) (
                    Ends-then bs _ _ _ _ (Writes-u8 bs (flag_sum opts)) (
                      Ends-then bs _ _ _ _ (Writes-u16 bs opts.keep_alive_s) (
                        Ends-then bs _ _ _ _ (Writes-string bs opts.client_id (ground (arith, e))) (
                          Ends-then bs _ _ _ _ (Writes-will opts.will (ground (arith, e))) (
                            Ends-then bs _ _ _ _ (Writes-username opts.username (ground (arith, e)))
                              (Ends-then bs _ _ _ _ (Writes-password opts (ground (arith, e)))
                                (Ends-written bs))))))))))
            ∙ ap
                (λ l. fitted size (
                  to_byte (header connect false 0 false n)
                  ∷ (encode_loop 4 n ++ body_ending opts l)))
                (append-nil (optional_field opts.password)))
  ]
