-- ===== src/Codec/Stream.antt =====
-- etl::byte_stream_writer and etl::byte_stream_reader in network order, as the codec uses them. They
-- are not part of the repository: their operations and what the codec relies on are this record.
use Prim.Native.Nat.{ℕ}
use paho_cpp_static.Prelude.{
  ℕ, List, Option, ◌≤◌, length, ◌/◌, ◌≡◌, ◌<◌, [], none, some, ◌∷◌, if◌then◌else◌, ◌*◌, ◌++◌, arith,
  ◌%◌, take, leb, ◌+◌, ◌-◌, drop, refl,
}

-- The two bytes of a 16-bit number in network order.
abbrev pub be16 : ℕ → List ℕ
be16 n = n / 256 ∷ n % 256 ∷ []

-- `none` is a write that returns false, or a read without a value; the codec drops the stream then.
pub record ByteStream : Type 1 where
  pub Writer : Type 0
  pub open_writer : ℕ → Writer
  pub write_u8 : ℕ → Writer → Option Writer
  pub write_u16 : ℕ → Writer → Option Writer
  pub write_block : List ℕ → Writer → Option Writer
  pub room : Writer → ℕ
  pub written : Writer → List ℕ
  pub Reader : Type 0
  pub open_reader : List ℕ → Reader
  pub read_u16 : Reader → Option (ℕ × Reader)
  pub read_block : ℕ → Reader → Option (List ℕ × Reader)
  pub unread : Reader → List ℕ
  pub available_bytes : Reader → ℕ
  pub open_room : (n : ℕ) → room (open_writer n) ≡ n
  pub open_written : (n : ℕ) → written (open_writer n) ≡ []
  -- A write that fits appends its bytes; one that does not fails.
  pub u8_fits :
      (b : ℕ) (w : Writer)
      → 1 ≤ room w
      → (w' : Writer) × (write_u8 b w ≡ some w')
        × (written w' ≡ written w ++ (b ∷ []))
        × (room w' + 1 ≡ room w)
  pub u8_full : (b : ℕ) (w : Writer) → room w < 1 → write_u8 b w ≡ none
  pub u16_fits :
      (n : ℕ) (w : Writer)
      → 2 ≤ room w
      → (w' : Writer) × (write_u16 n w ≡ some w')
        × (written w' ≡ written w ++ be16 n)
        × (room w' + 2 ≡ room w)
  pub u16_full : (n : ℕ) (w : Writer) → room w < 2 → write_u16 n w ≡ none
  pub block_fits :
      (bytes : List ℕ) (w : Writer)
      → length bytes ≤ room w
      → (w' : Writer) × (write_block bytes w ≡ some w')
        × (written w' ≡ written w ++ bytes)
        × (room w' + length bytes ≡ room w)
  pub block_full :
      (bytes : List ℕ) (w : Writer) → room w < length bytes → write_block bytes w ≡ none
  pub open_unread : (bytes : List ℕ) → unread (open_reader bytes) ≡ bytes
  pub available_lem : (r : Reader) → available_bytes r ≡ length (unread r)
  -- A read that fits takes its bytes off the front; one that does not fails.
  pub read_u16_fits :
      (r : Reader) (hi lo : ℕ) (rest : List ℕ)
      → unread r ≡ hi ∷ lo ∷ rest
      → (r' : Reader) × (read_u16 r ≡ some (hi * 256 + lo, r')) × (unread r' ≡ rest)
  pub read_u16_short : (r : Reader) → length (unread r) < 2 → read_u16 r ≡ none
  pub read_block_fits :
      (n : ℕ) (r : Reader)
      → n ≤ length (unread r)
      → (r' : Reader) × (read_block n r ≡ some (take n (unread r), r'))
        × (unread r' ≡ drop n (unread r))
  pub read_block_short : (n : ℕ) (r : Reader) → length (unread r) < n → read_block n r ≡ none

-- The record can be filled: a writer is what it holds and its room, a reader what it has not read.
unfoldable pub put_list : List ℕ → ℕ × List ℕ → Option (ℕ × List ℕ)
put_list bytes (space, held) =
    if leb (length bytes) space then some (space - length bytes, held ++ bytes) else none

pub put_list_fits :
    (bytes : List ℕ) (w : ℕ × List ℕ)
    → length bytes ≤ w.0
    → (w' : ℕ × List ℕ) × (put_list bytes w ≡ some w')
      × (w'.1 ≡ w.1 ++ bytes)
      × (w'.0 + length bytes ≡ w.0)
unfolding put_list
put_list_fits bytes (space, held) h =
    ((space - length bytes, held ++ bytes), ground arith, refl, omega arith)

pub put_list_full : (bytes : List ℕ) (w : ℕ × List ℕ) → w.0 < length bytes → put_list bytes w ≡ none
unfolding put_list
put_list_full bytes (space, held) h = ground arith

unfoldable pub take_list : ℕ → List ℕ → Option (List ℕ × List ℕ)
take_list n bytes = if leb n (length bytes) then some (take n bytes, drop n bytes) else none

pub take_list_fits :
    (n : ℕ) (r : List ℕ)
    → n ≤ length r
    → (r' : List ℕ) × (take_list n r ≡ some (take n r, r')) × (r' ≡ drop n r)
unfolding take_list
take_list_fits n r h = (drop n r, ground arith, refl)

pub take_list_short : (n : ℕ) (r : List ℕ) → length r < n → take_list n r ≡ none
unfolding take_list
take_list_short n r h = ground arith

unfoldable pub take_two : List ℕ → Option (ℕ × List ℕ)
take_two [] = none
take_two (hi ∷ []) = none
take_two (hi ∷ lo ∷ rest) = some (hi * 256 + lo, rest)

pub take_two_fits :
    (r : List ℕ) (hi lo : ℕ) (rest : List ℕ)
    → r ≡ hi ∷ lo ∷ rest
    → (r' : List ℕ) × (take_two r ≡ some (hi * 256 + lo, r')) × (r' ≡ rest)
unfolding take_two
take_two_fits r hi lo rest e = (rest, rw e, refl)

pub take_two_short : (r : List ℕ) → length r < 2 → take_two r ≡ none
unfolding take_two
take_two_short [] h = refl
take_two_short (hi ∷ []) h = refl
take_two_short (hi ∷ lo ∷ rest) h = absurd (omega arith)

unfoldable pub list_stream : ByteStream
unfolding put_list take_list take_two
list_stream = record {
  Writer = ℕ × List ℕ;
  open_writer = λ n. (n, []);
  write_u8 = λ b. put_list (b ∷ []);
  write_u16 = λ n. put_list (be16 n);
  write_block = put_list;
  room = λ w. w.0;
  written = λ w. w.1;
  Reader = List ℕ;
  open_reader = λ bytes. bytes;
  read_u16 = take_two;
  read_block = take_list;
  unread = λ r. r;
  available_bytes = length;
  open_room = λ n. refl;
  open_written = λ n. refl;
  u8_fits = λ b. put_list_fits (b ∷ []);
  u8_full = λ b. put_list_full (b ∷ []);
  u16_fits = λ n. put_list_fits (be16 n);
  u16_full = λ n. put_list_full (be16 n);
  block_fits = put_list_fits;
  block_full = put_list_full;
  open_unread = λ bytes. refl;
  available_lem = λ r. refl;
  read_u16_fits = take_two_fits;
  read_u16_short = take_two_short;
  read_block_fits = take_list_fits;
  read_block_short = take_list_short;
}
