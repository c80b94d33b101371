-- ===== src/Utility/Crc32/Bitwise.antt =====
-- `CRC32` computes the CRC-32 of the bits, whatever calls of `pushData` they come in.
use Prim.Native.Nat.{bit_xor}
use open_esl.Prelude.{
  ◌^◌, ltb, ◌%◌, ap₂, ap, ◌∙◌, IsByte, All, ◌++◌, sym, ◌/◌, ℕ, ◌<◌, ◌≡◌, refl, Bool, true, [], ◌∷◌,
  arith, ◌==◌, get_or, Bytes, table_passes, table_passes_entry,
}
use open_esl.Utility.Crc32.{all_ones, push_loop, push_byte, push_data, crc32_table}
use open_esl.Utility.Crc32.Xor.{xor-xor}
use open_esl.Utility.Crc32.Rounds.{high-xor, xor_fits, rounds-byte, rounds, round}

-- The checksum without a table: each byte is taken in, and shifted out bit by bit.
unfoldable pub shift_in : Bytes → ℕ → ℕ
unfolding rounds
shift_in [] value = value
shift_in (byte ∷ bytes) value = shift_in bytes (rounds 8 (bit_xor value byte))

-- The entry is what eight rounds make of its index.
abbrev is_entry : ℕ → Bool
is_entry i = get_or crc32_table i 0 == rounds 8 i

table_is_right : table_passes is_entry 256 ≡ true
unfolding table_passes rounds round
table_is_right = refl

crc32_table-rounds : (i : ℕ) → i < 256 → get_or crc32_table i 0 ≡ rounds 8 i
crc32_table-rounds i h = ground (arith, table_passes_entry is_entry 256 table_is_right i h)

push_byte-rounds :
    (value byte : ℕ) → byte < 256 → push_byte value byte ≡ rounds 8 (bit_xor value byte)
unfolding push_byte
push_byte-rounds value byte h =
    let mixed = bit_xor value byte in
    sym (
      rounds-byte mixed
      ∙ ap₂ bit_xor (high-xor value byte h) (sym (crc32_table-rounds (mixed % 256) (omega arith))))

push_loop-shift_in :
    (bytes : Bytes) (value : ℕ) → All IsByte bytes → push_loop bytes value ≡ shift_in bytes value
unfolding push_loop shift_in
push_loop-shift_in [] value h = refl
push_loop-shift_in (byte ∷ bytes) value (h, rest) =
    push_loop-shift_in bytes (push_byte value byte) rest
    ∙ ap (shift_in bytes) (push_byte-rounds value byte h)

-- What `pushData` leaves for bytes is their CRC-32 as it is defined bit by bit: the remainder of the
-- division by the polynomial, which starts at the old value and is kept inverted.
pub push_data-shift_in :
    (bytes : Bytes) (value : ℕ)
    → All IsByte bytes
    → push_data bytes value ≡ bit_xor (shift_in bytes (bit_xor value all_ones)) all_ones
unfolding push_data
push_data-shift_in bytes value h =
    ap (λ v. bit_xor v all_ones) (push_loop-shift_in bytes (bit_xor value all_ones) h)

push_loop-append :
    (bytes more : Bytes) (value : ℕ)
    → push_loop (bytes ++ more) value ≡ push_loop more (push_loop bytes value)
unfolding push_loop
push_loop-append [] more value = refl
push_loop-append (byte ∷ bytes) more value = push_loop-append bytes more (push_byte value byte)

-- Two calls of `pushData` do what one call does for the bytes of both.
push_data-append :
    (bytes more : Bytes) (value : ℕ)
    → push_data more (push_data bytes value) ≡ push_data (bytes ++ more) value
unfolding push_data
push_data-append bytes more value =
    let first = push_loop bytes (bit_xor value all_ones) in
    ap (λ v. bit_xor (push_loop more v) all_ones) (xor-xor first all_ones)
    ∙ ap (λ v. bit_xor v all_ones) (sym (push_loop-append bytes more (bit_xor value all_ones)))

-- Each entry has 32 bits.
abbrev entry_fits : ℕ → Bool
entry_fits i = ltb (get_or crc32_table i 0) (2 ^ 32)

table_fits : table_passes entry_fits 256 ≡ true
unfolding table_passes
table_fits = refl

push_loop_fits : (bytes : Bytes) (value : ℕ) → value < 2 ^ 32 → push_loop bytes value < 2 ^ 32
unfolding push_loop push_byte
push_loop_fits [] value h = h
push_loop_fits (byte ∷ bytes) value h =
    let i = bit_xor value byte % 256 in
    push_loop_fits bytes (push_byte value byte) (
      xor_fits (value / 256) (get_or crc32_table i 0) (omega (arith, h))
        (ground (arith, table_passes_entry entry_fits 256 table_fits i (omega arith))))

-- A value of 32 bits stays one.
push_data_fits : (bytes : Bytes) (value : ℕ) → value < 2 ^ 32 → push_data bytes value < 2 ^ 32
unfolding push_data
push_data_fits bytes value h =
    xor_fits (push_loop bytes (bit_xor value all_ones)) all_ones
      (push_loop_fits bytes (bit_xor value all_ones) (xor_fits value all_ones h (omega arith)))
      (omega arith)
