-- ===== src/Utility/Base64/Tables.antt =====
-- Every value below 64 has a character, from which the value is found again.
use open_esl.Prelude.{
  ℕ, ◌<◌, Bool, true, ◌||◌, ◌==◌, ◌≡◌, refl, arith, table_passes, table_passes_entry, ==_iff,
}
use open_esl.Utility.Base64.{
  Base64Variant, base64, base64url, char_value, encode_char, isalnum, Decoder, store, classify,
}

char_value-table-base64 : table_passes (λ n. char_value (encode_char base64 n) == n) 64 ≡ true
unfolding table_passes char_value encode_char
char_value-table-base64 = refl

char_value-table-base64url : table_passes (λ n. char_value (encode_char base64url n) == n) 64 ≡ true
unfolding table_passes char_value encode_char
char_value-table-base64url = refl

pub char_value-encode_char :
    (variant : Base64Variant) (n : ℕ) → n < 64 → char_value (encode_char variant n) ≡ n
char_value-encode_char base64 n h =
    (==_iff _ n).0 (table_passes_entry _ 64 char_value-table-base64 n h)
char_value-encode_char base64url n h =
    (==_iff _ n).0 (table_passes_entry _ 64 char_value-table-base64url n h)

-- The test on which `fromBase64` goes on.
pub is_plain : ℕ → Bool
is_plain c = isalnum c || c == b'+' || c == b'/' || c == b'-' || c == b'_'

is_plain-table-base64 : table_passes (λ n. is_plain (encode_char base64 n)) 64 ≡ true
unfolding table_passes is_plain encode_char isalnum
is_plain-table-base64 = refl

is_plain-table-base64url : table_passes (λ n. is_plain (encode_char base64url n)) 64 ≡ true
unfolding table_passes is_plain encode_char isalnum
is_plain-table-base64url = refl

is_plain-encode_char :
    (variant : Base64Variant) (n : ℕ) → n < 64 → is_plain (encode_char variant n) ≡ true
is_plain-encode_char base64 n h = table_passes_entry _ 64 is_plain-table-base64 n h
is_plain-encode_char base64url n h = table_passes_entry _ 64 is_plain-table-base64url n h

classify_plain :
    (accept : Bool) (d : Decoder) (c : ℕ) → is_plain c ≡ true → classify accept d c ≡ store
unfolding classify is_plain
classify_plain accept d c h = ground arith

pub classify-encode_char :
    (accept : Bool) (d : Decoder) (variant : Base64Variant) (n : ℕ)
    → n < 64
    → classify accept d (encode_char variant n) ≡ store
classify-encode_char accept d variant n h =
    classify_plain accept d (encode_char variant n) (is_plain-encode_char variant n h)
