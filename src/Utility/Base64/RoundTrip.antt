-- ===== src/Utility/Base64/RoundTrip.antt =====
-- `String::fromBase64` undoes `String::toBase64`.
use open_esl.Prelude.{
  refl, if◌then◌else◌, append_assoc, append-nil, sym, All, ℕ, ◌<◌, ◌+◌, ◌*◌, ◌/◌, ◌%◌, Bool, true,
  false, [], ◌∷◌, ◌++◌, ◌≡◌, ap, ◌∙◌, arith, Bytes, IsByte,
}
use open_esl.Utility.Base64.{
  base64url, base64, classify, finish, from_base64, padding, to_base64, Base64Variant, encode_char,
  decode_base64_buffer, Decoder, push_char, decode_loop,
}
use open_esl.Utility.Base64.Tables.{char_value-encode_char, classify-encode_char}

-- The loop between two groups of four characters.
abbrev between : Bytes → Bool → Bool → Bool → Decoder
between str cr lf has = record {
  str = str;
  buffer_index = 0;
  buffer = [];
  is_new_line_cr = cr;
  is_new_line_lf = lf;
  has_characters = has;
}

-- The same with characters in the buffer.
abbrev inside : Bytes → ℕ → Bytes → Decoder
inside str n buffer = record {
  str = str;
  buffer_index = n;
  buffer = buffer;
  is_new_line_cr = false;
  is_new_line_lf = false;
  has_characters = true;
}

mod64 : (n : ℕ) → n % 64 < 64
mod64 n = omega arith

-- Padding ends the loop.
decode_stop :
    (accept : Bool) (v : Base64Variant) (d : Decoder) (with_padding : Bool)
    → (decode_loop accept d (if with_padding then padding v else []) ≡ d)
      × (decode_loop accept d (if with_padding then padding v ++ padding v else []) ≡ d)
unfolding decode_loop padding classify
decode_stop accept base64 d with_padding = (ground arith, ground arith)
decode_stop accept base64url d with_padding = (ground arith, ground arith)

module _ (accept : Bool) (v : Base64Variant) where
  abbrev enc : ℕ → ℕ
  enc n = encode_char v n

  decode_one :
      (d : Decoder) (n : ℕ) (rest : Bytes)
      → n < 64
      → decode_loop accept d (enc n ∷ rest) ≡ decode_loop accept (push_char d (enc n)) rest
  unfolding decode_loop
  decode_one d n rest h = rw (classify-encode_char accept d v n h, decode_loop)

  decode_two :
      (str : Bytes) (cr lf has : Bool) (p q : ℕ) (rest : Bytes)
      → p < 64
      → q < 64
      → decode_loop accept (between str cr lf has) (enc p ∷ enc q ∷ rest)
        ≡ decode_loop accept (inside str 2 (enc p ∷ enc q ∷ [])) rest
  unfolding push_char
  decode_two str cr lf has p q rest hp hq =
      decode_one (between str cr lf has) p (enc q ∷ rest) hp
      ∙ decode_one (inside str 1 (enc p ∷ [])) q rest hq

  decode_three :
      (str : Bytes) (cr lf has : Bool) (p q r : ℕ) (rest : Bytes)
      → p < 64
      → q < 64
      → r < 64
      → decode_loop accept (between str cr lf has) (enc p ∷ enc q ∷ enc r ∷ rest)
        ≡ decode_loop accept (inside str 3 (enc p ∷ enc q ∷ enc r ∷ [])) rest
  unfolding push_char
  decode_three str cr lf has p q r rest hp hq hr =
      decode_two str cr lf has p q (enc r ∷ rest) hp hq
      ∙ decode_one (inside str 2 (enc p ∷ enc q ∷ [])) r rest hr

  decode_four :
      (str : Bytes) (cr lf has : Bool) (p q r s : ℕ) (rest : Bytes)
      → p < 64
      → q < 64
      → r < 64
      → s < 64
      → decode_loop accept (between str cr lf has) (enc p ∷ enc q ∷ enc r ∷ enc s ∷ rest)
        ≡ decode_loop accept
            (between
              (str ++ decode_base64_buffer 4 (enc p ∷ enc q ∷ enc r ∷ enc s ∷ []))
              false
              false
              true)
            rest
  unfolding push_char
  decode_four str cr lf has p q r s rest hp hq hr hs =
      decode_three str cr lf has p q r (enc s ∷ rest) hp hq hr
      ∙ decode_one (inside str 3 (enc p ∷ enc q ∷ enc r ∷ [])) s rest hs

  buffer_two :
      (a p q : ℕ)
      → p ≡ a * 65536 / 262144 % 64
      → q ≡ a * 65536 / 4096 % 64
      → IsByte a
      → decode_base64_buffer 2 (enc p ∷ enc q ∷ []) ≡ a ∷ []
  unfolding decode_base64_buffer
  buffer_two a p q ep eq h =
      rw (char_value-encode_char v p (omega arith), char_value-encode_char v q (omega arith))
        (ap (λ x. x ∷ []) (omega arith))

  buffer_three :
      (a b p q r : ℕ)
      → p ≡ (a * 65536 + b * 256) / 262144 % 64
      → q ≡ (a * 65536 + b * 256) / 4096 % 64
      → r ≡ (a * 65536 + b * 256) / 64 % 64
      → IsByte a
      → IsByte b
      → decode_base64_buffer 3 (enc p ∷ enc q ∷ enc r ∷ []) ≡ a ∷ b ∷ []
  unfolding decode_base64_buffer
  buffer_three a b p q r ep eq er h k =
      ground
        (arith, char_value-encode_char v p, char_value-encode_char v q, char_value-encode_char v r)

  buffer_four :
      (a b c p q r s : ℕ)
      → p ≡ (a * 65536 + b * 256 + c) / 262144 % 64
      → q ≡ (a * 65536 + b * 256 + c) / 4096 % 64
      → r ≡ (a * 65536 + b * 256 + c) / 64 % 64
      → s ≡ (a * 65536 + b * 256 + c) % 64
      → IsByte a
      → IsByte b
      → IsByte c
      → decode_base64_buffer 4 (enc p ∷ enc q ∷ enc r ∷ enc s ∷ []) ≡ a ∷ b ∷ c ∷ []
  unfolding decode_base64_buffer
  buffer_four a b c p q r s ep eq er es h k l = ground (
    arith,
    char_value-encode_char v p,
    char_value-encode_char v q,
    char_value-encode_char v r,
    char_value-encode_char v s,
  )

  loop-to_base64 :
      (bytes str : Bytes) (cr lf has with_padding : Bool)
      → All IsByte bytes
      → finish (decode_loop accept (between str cr lf has) (to_base64 bytes v with_padding))
        ≡ str ++ bytes
  unfolding to_base64 finish
  loop-to_base64 [] str cr lf has with_padding h = unfold decode_loop in sym (append-nil str)
  loop-to_base64 (a ∷ []) str cr lf has with_padding h =
      rw
        (
          decode_two str cr lf has _ _ _ (mod64 _) (mod64 _),
          (decode_stop accept v (inside str 2 _) with_padding).1,
        )
        (ap (◌++◌ str) (buffer_two a _ _ refl refl h.0))
  loop-to_base64 (a ∷ (b ∷ [])) str cr lf has with_padding h =
      rw
        (
          decode_three str cr lf has _ _ _ _ (mod64 _) (mod64 _) (mod64 _),
          (decode_stop accept v (inside str 3 _) with_padding).0,
        )
        (ap (◌++◌ str) (buffer_three a b _ _ _ refl refl refl h.0 h.1.0))
  loop-to_base64 (a ∷ (b ∷ (c ∷ cs))) str cr lf has with_padding h =
      rw
        (
          decode_four str cr lf has _ _ _ _ _ (mod64 _) (mod64 _) (mod64 _) (mod64 _),
          buffer_four a b c _ _ _ _ refl refl refl refl h.0 h.1.0 h.1.1.0,
        )
        (loop-to_base64 cs (str ++ a ∷ b ∷ c ∷ []) false false true with_padding h.1.1.1
          ∙ append_assoc str (a ∷ b ∷ c ∷ []) cs)

-- Whatever the variant, with or without padding, and whether formatting is accepted or not,
-- decoding the encoding of a list of bytes gives the list back.
pub from_base64-to_base64 :
    (str : Bytes) (variant : Base64Variant) (with_padding accept_formatting : Bool)
    → All IsByte str
    → from_base64 (to_base64 str variant with_padding) accept_formatting ≡ str
unfolding from_base64
from_base64-to_base64 str variant with_padding accept_formatting h =
    loop-to_base64 accept_formatting variant str [] true true false with_padding h
