-- ===== src/Utility/Base64.antt =====
-- `String::toBase64`, `String::fromBase64` and the tables of both, in
-- features/common4esl/src/esl/utility/String.cpp. Shifts and masks are written as `/` and `%` by
-- powers of two.
pub mod Tables
pub mod RoundTrip
mod Tests
use open_esl.Prelude.{
  take, ℕ, zero, suc, ◌+◌, ◌-◌, ◌*◌, ◌/◌, ◌%◌, Bool, true, false, ◌&&◌, ◌||◌, Option, none, some,
  [], ◌∷◌, ◌++◌, ◌==◌, leb, if◌then◌else◌, get_or, Bytes,
}

pub data Base64Variant : Type 0 where
  base64 base64url : Base64Variant

letter_from : ℕ → ℕ → Bytes
letter_from first zero = []
letter_from first (suc n) = first ∷ letter_from (first + 1) n

-- The first 62 characters of both tables: A to Z, a to z, 0 to 9.
alphanumerics : Bytes
unfolding letter_from
alphanumerics = letter_from b'A' 26 ++ (letter_from b'a' 26 ++ letter_from b'0' 10)

unfoldable pub base64_chars : Bytes
unfolding alphanumerics
base64_chars = alphanumerics ++ b'+' ∷ b'/' ∷ []

unfoldable pub base64url_chars : Bytes
unfolding alphanumerics
base64url_chars = alphanumerics ++ b'-' ∷ b'_' ∷ []

-- `std::string::find` of one character, from position `pos` on; `none` is `npos`.
unfoldable pub find_from : ℕ → ℕ → Bytes → Option ℕ
find_from pos c [] = none
find_from pos c (x ∷ xs) = if x == c then some pos else find_from (pos + 1) c xs

-- The 6 bits of a character: `npos`, stored in an `unsigned char`, is 255.
unfoldable pub char_value : ℕ → ℕ
unfolding find_from base64_chars base64url_chars
char_value c = elim (find_from 0 c base64_chars) [
  | some pos ↦ pos % 256
  | none ↦ elim (find_from 0 c base64url_chars) [ some pos ↦ pos % 256 | none ↦ 255 ]
]

-- `decodeBase64Buffer`, on the characters in the buffer; the missing ones are filled with 0.
unfoldable pub decode_base64_buffer : ℕ → Bytes → Bytes
unfolding char_value
decode_base64_buffer buffer_index buffer =
    let b0 = char_value (get_or buffer 0 0) in
    let b1 = char_value (get_or buffer 1 0) in
    let b2 = char_value (get_or buffer 2 0) in
    let b3 = char_value (get_or buffer 3 0) in
    let t0 = (b0 * 4 + b1 / 16 % 4) % 256 in
    let t1 = (b1 % 16 * 16 + b2 / 4 % 16) % 256 in
    let t2 = (b2 % 4 * 64 + b3) % 256 in take (buffer_index - 1) (t0 ∷ t1 ∷ t2 ∷ [])

-- `%3d` for the one variant, `=` for the other
unfoldable pub padding : Base64Variant → Bytes
padding base64 = b'=' ∷ []
padding base64url = b'%' ∷ b'3' ∷ b'd' ∷ []

unfoldable pub encode_char : Base64Variant → ℕ → ℕ
unfolding base64_chars base64url_chars
encode_char base64 n = get_or base64_chars n 0
encode_char base64url n = get_or base64url_chars n 0

-- The loop of `toBase64`: three bytes a round, with `packed64` and `num64Chars`.
unfoldable pub to_base64 : Bytes → Base64Variant → Bool → Bytes
unfolding padding encode_char
to_base64 [] variant with_padding = []
to_base64 (a ∷ []) variant with_padding =
    let packed64 = a * 65536 in
    encode_char variant (packed64 / 262144 % 64)
    ∷ encode_char variant (packed64 / 4096 % 64)
    ∷ (if with_padding then padding variant ++ padding variant else [])
to_base64 (a ∷ (b ∷ [])) variant with_padding =
    let packed64 = a * 65536 + b * 256 in
    encode_char variant (packed64 / 262144 % 64)
    ∷ encode_char variant (packed64 / 4096 % 64)
    ∷ encode_char variant (packed64 / 64 % 64)
    ∷ (if with_padding then padding variant else [])
to_base64 (a ∷ (b ∷ (c ∷ cs))) variant with_padding =
    let packed64 = a * 65536 + b * 256 + c in
    encode_char variant (packed64 / 262144 % 64)
    ∷ encode_char variant (packed64 / 4096 % 64)
    ∷ encode_char variant (packed64 / 64 % 64)
    ∷ encode_char variant (packed64 % 64)
    ∷ to_base64 cs variant with_padding

-- `std::isalnum` in the C locale.
unfoldable pub isalnum : ℕ → Bool
isalnum c = (leb b'0' c && leb c b'9') || (leb b'A' c && leb c b'Z') || (leb b'a' c && leb c b'z')

-- The variables of the loop of `fromBase64`; `buffer` holds the first `bufferIndex` characters.
pub record Decoder : Type 0 where
  pub str : Bytes
  pub buffer_index : ℕ
  pub buffer : Bytes
  pub is_new_line_cr : Bool
  pub is_new_line_lf : Bool
  pub has_characters : Bool

-- What one round does: `break`, `continue`, or a character that goes into the buffer.
pub data Round : Type 0 where
  stop : Round
  skip : Decoder → Round
  store : Round

unfoldable pub formatting : Decoder → ℕ → Round
unfolding isalnum
formatting d c =
    if c == 10
    then if d.is_new_line_lf then stop else skip (record d { is_new_line_lf = true })
    else if c == 13
    then if d.is_new_line_cr then stop else skip (record d { is_new_line_cr = true })
    else if c == b' ' || c == 8
    then if d.has_characters
      then stop
      else skip (record d { is_new_line_cr = true; is_new_line_lf = true })
    else store

-- The tests of one round up to the `isalnum` test.
unfoldable pub classify : Bool → Decoder → ℕ → Round
unfolding formatting
classify accept_formatting d c =
    let formatted = if accept_formatting then formatting d c else store in
    if c == b'=' then stop else elim formatted [
      | stop ↦ stop
      | skip e ↦ skip e
      | store ↦
          if isalnum c || c == b'+' || c == b'/' || c == b'-' || c == b'_' then store else stop
    ]

-- The character goes into the buffer, which is decoded when it is full.
unfoldable pub push_char : Decoder → ℕ → Decoder
unfolding decode_base64_buffer
push_char d c =
    let full = d.buffer ++ c ∷ [] in
    let flushed = d.buffer_index + 1 == 4 in
    record {
      str = if flushed then d.str ++ decode_base64_buffer 4 full else d.str;
      buffer_index = if flushed then 0 else d.buffer_index + 1;
      buffer = if flushed then [] else full;
      is_new_line_cr = false;
      is_new_line_lf = false;
      has_characters = true;
    }

unfoldable pub decode_loop : Bool → Decoder → Bytes → Decoder
unfolding classify push_char
decode_loop accept_formatting d [] = d
decode_loop accept_formatting d (c ∷ cs) = elim (classify accept_formatting d c) [
  | stop ↦ d
  | skip e ↦ decode_loop accept_formatting e cs
  | store ↦ decode_loop accept_formatting (push_char d c) cs
]

-- What stands behind the loop.
unfoldable pub finish : Decoder → Bytes
unfolding decode_base64_buffer
finish d =
    if d.buffer_index == 0 then d.str else d.str ++ decode_base64_buffer d.buffer_index d.buffer

unfoldable pub from_base64 : Bytes → Bool → Bytes
unfolding decode_loop finish
from_base64 base64str accept_formatting = finish (
    decode_loop accept_formatting
      (record {
        str = [];
        buffer_index = 0;
        buffer = [];
        is_new_line_cr = true;
        is_new_line_lf = true;
        has_characters = false;
      })
      base64str)
