-- ===== src/Codec/Writes.antt =====
-- What a run of writes does: it appends known bytes if they fit, and else reports BufferTooSmall.
use paho_cpp_static.Vbi.Encode.{vbi_encode_ok, vbi_size-le}
use paho_cpp_static.Vbi.{encode_loop, vbi_encode}
use paho_cpp_static.Header.{to_byte}
use paho_cpp_static.Packet.{PacketType, QoS, max_remaining_length}
use paho_cpp_static.Error.{Result, value, ◌>>=◌, error, buffer_too_small}
use paho_cpp_static.Prelude.{
  ℕ, [], Bool, List, ◌∷◌, length, if◌then◌else◌, ◌++◌, sym, ◌≤◌, true, append-nil, ◌≡◌, arith, ◌+◌,
  leb, length-append, ◌<◌, ◌∙◌, ap, refl, append_assoc, dec_lt, false, not, subst, is_empty, ◌%◌,
}
use Prim.Native.String.{[]}
use paho_cpp_static.Codec.Encode.{write_string, or_too_small, write_fixed_header}
use Prim.Native.Nat.{ℕ}
use paho_cpp_static.Codec.Stream.{ByteStream, be16}

module _ (bs : ByteStream) where
  open bs use {
    open_room, open_written, Writer, open_writer, write_u8, write_u16, write_block, room, written,
    u8_fits, u8_full, u16_fits, u16_full, block_fits, block_full,
  }

  abbrev pub Appends : List ℕ → Writer → Result Writer → Type 0
  Appends bytes w r =
      (length bytes ≤ room w
        → (w' : Writer) × (r ≡ value w')
          × (written w' ≡ written w ++ bytes)
          × (room w' + length bytes ≡ room w))
      × (room w < length bytes → r ≡ error buffer_too_small)

  abbrev pub Writes : List ℕ → (Writer → Result Writer) → Type 0
  Writes bytes f = (w : Writer) → Appends bytes w (f w)

  pub Writes-u8 : (b : ℕ) → Writes (b ∷ []) (λ w. or_too_small bs (write_u8 b w))
  Writes-u8 b w =
      (λ h. let (w', e, c, n) = u8_fits b w h in (w', rw e, c, n), λ h. rw (u8_full b w h))

  pub Writes-u16 : (n : ℕ) → Writes (be16 n) (λ w. or_too_small bs (write_u16 n w))
  Writes-u16 n w =
      (λ h. let (w', e, c, k) = u16_fits n w h in (w', rw e, c, k), λ h. rw (u16_full n w h))

  pub Writes-block : (bytes : List ℕ) → Writes bytes (λ w. or_too_small bs (write_block bytes w))
  Writes-block bytes w = (
    λ h. let (w', e, c, k) = block_fits bytes w h in (w', rw e, c, k),
    λ h. rw (block_full bytes w h),
  )

  pub Writes-nothing : Writes [] (λ w. value w)
  Writes-nothing w =
      (λ h. (w, refl, sym (append-nil (written w)), omega arith), λ h. absurd (omega arith))

  pub Writes-if :
      (b : Bool) (bytes : List ℕ) (f : Writer → Result Writer)
      → Writes bytes f
      → Writes (if b then bytes else []) (λ w. if b then f w else value w)
  Writes-if true bytes f h = h
  Writes-if false bytes f h = Writes-nothing

  -- One run after another.
  pub Writes-then :
      (xs ys : List ℕ) (f g : Writer → Result Writer)
      → Writes xs f
      → Writes ys g
      → Writes (xs ++ ys) (λ w. f w >>= g)
  Writes-then xs ys f g hf hg w = (fits, full)
    where
      len : length (xs ++ ys) ≡ length xs + length ys
      len = length-append xs ys

      fits :
          length (xs ++ ys) ≤ room w
          → (w' : Writer) × ((f w >>= g) ≡ value w')
            × (written w' ≡ written w ++ (xs ++ ys))
            × (room w' + length (xs ++ ys) ≡ room w)
      fits h =
          let (w1, e1, c1, n1) = (hf w).0 (omega (arith, len)) in
          let (w2, e2, c2, n2) = (hg w1).0 (omega (arith, len)) in
          (
            w2,
            rw (e1, e2),
            c2 ∙ ap (λ l. l ++ ys) c1 ∙ append_assoc (written w) xs ys,
            omega (arith, len),
          )

      full : room w < length (xs ++ ys) → (f w >>= g) ≡ error buffer_too_small
      full h = elim (dec_lt (room w) (length xs)) [
        | yes p ↦ rw ((hf w).1 p)
        | no p ↦
            let (w1, e1, c1, n1) = (hf w).0 (omega arith) in rw (e1, (hg w1).1 (omega (arith, len)))
      ]

  -- The rest of an encoder, up to the bytes that it returns.
  abbrev pub Ends : List ℕ → (Writer → Result (List ℕ)) → Type 0
  Ends bytes k =
      (w : Writer)
      → (length bytes ≤ room w → k w ≡ value (written w ++ bytes))
        × (room w < length bytes → k w ≡ error buffer_too_small)

  pub Ends-written : Ends [] (λ w. value (written w))
  Ends-written w = (λ h. ap value (sym (append-nil (written w))), λ h. absurd (omega arith))

  pub Ends-then :
      (xs ys : List ℕ) (f : Writer → Result Writer) (k : Writer → Result (List ℕ))
      → Writes xs f
      → Ends ys k
      → Ends (xs ++ ys) (λ w. f w >>= k)
  Ends-then xs ys f k hf hk w = (fits, full)
    where
      len : length (xs ++ ys) ≡ length xs + length ys
      len = length-append xs ys

      fits : length (xs ++ ys) ≤ room w → (f w >>= k) ≡ value (written w ++ (xs ++ ys))
      fits h =
          let (w1, e1, c1, n1) = (hf w).0 (omega (arith, len)) in
          rw (e1, (hk w1).0 (omega (arith, len)), c1, append_assoc)

      full : room w < length (xs ++ ys) → (f w >>= k) ≡ error buffer_too_small
      full h = elim (dec_lt (room w) (length xs)) [
        | yes p ↦ rw ((hf w).1 p)
        | no p ↦
            let (w1, e1, c1, n1) = (hf w).0 (omega arith) in rw (e1, (hk w1).1 (omega (arith, len)))
      ]

  -- A whole packet, written to a fresh span of `size` bytes.
  pub Ends-fresh :
      (size : ℕ) (bytes : List ℕ) (k : Writer → Result (List ℕ))
      → Ends bytes k
      → k (open_writer size)
        ≡ (if leb (length bytes) size then value bytes else error buffer_too_small)
  Ends-fresh size bytes k h = elim (dec_lt size (length bytes)) [
    | yes p ↦
        (h (open_writer size)).1 (subst (λ n. n < length bytes) (sym (open_room size)) p)
        ∙ ground arith
    | no p ↦
        (h (open_writer size)).0
          (subst (λ n. length bytes ≤ n) (sym (open_room size)) (omega arith))
        ∙ rw (open_written size) (ground arith)
  ]

  -- Two runs that agree on every stream.
  pub Writes-eq :
      (bytes : List ℕ) (f g : Writer → Result Writer)
      → ((w : Writer) → f w ≡ g w)
      → Writes bytes g
      → Writes bytes f
  Writes-eq bytes f g e h = λ w. subst (λ r. Appends bytes w r) (sym (e w)) (h w)

  pub Writes-payload :
      (s : List ℕ)
      → Writes s (λ w. if not (is_empty s) then or_too_small bs (write_block s w) else value w)
  Writes-payload [] = Writes-nothing
  Writes-payload (x ∷ s) = Writes-block (x ∷ s)

  pub Writes-string :
      (s : List ℕ) → length s ≤ 65535 → Writes (be16 (length s) ++ s) (write_string bs s)
  unfolding write_string
  Writes-string s h =
      Writes-eq (be16 (length s) ++ s) (write_string bs s)
        (λ w. or_too_small bs (write_u16 (length s) w) >>= rest) (λ w. same w)
        (Writes-then (be16 (length s)) s (λ w. or_too_small bs (write_u16 (length s) w)) rest
          (Writes-u16 (length s)) (Writes-payload s))
    where
      rest : Writer → Result Writer
      rest w = if not (is_empty s) then or_too_small bs (write_block s w) else value w

      small : length s % 65536 ≡ length s
      small = omega arith

      fits : leb (length s) 65535 ≡ true
      fits = ground arith

      same :
          (w : Writer) → write_string bs s w ≡ (or_too_small bs (write_u16 (length s) w) >>= rest)
      same w = rw (fits, small)

  pub Writes-header :
      (ptype : PacketType) (n : ℕ) (dup : Bool) (qos : QoS) (retain : Bool)
      → n ≤ max_remaining_length
      → Writes
          (to_byte (record {
            ptype = ptype;
            dup = dup;
            qos = qos;
            retain = retain;
            remaining_length = n;
          })
            ∷ encode_loop 4 n)
          (write_fixed_header bs ptype n dup qos retain)
  unfolding write_fixed_header
  Writes-header ptype n dup qos retain h =
      Writes-eq (b ∷ encode_loop 4 n) (write_fixed_header bs ptype n dup qos retain)
        (λ w. or_too_small bs (write_u8 b w) >>= λ w1.
          or_too_small bs (write_block (encode_loop 4 n) w1))
        (λ w. rw encoded)
        (Writes-then (b ∷ []) (encode_loop 4 n) (λ w. or_too_small bs (write_u8 b w))
          (λ w1. or_too_small bs (write_block (encode_loop 4 n) w1)) (Writes-u8 b)
          (Writes-block (encode_loop 4 n)))
    where
      b : ℕ
      b =
          to_byte
            (record { ptype = ptype; dup = dup; qos = qos; retain = retain; remaining_length = n })

      encoded : vbi_encode 4 n ≡ value (encode_loop 4 n)
      encoded = vbi_encode_ok 4 n h (vbi_size-le n)
