-- ===== src/Utility/Enum/Names.antt =====
-- The static `toString` of HttpMethod, MIME and Protocol, in esl/src/esl/utility. A value of an
-- enumeration is its number there; what is no value of it has the empty text.
use open_esl.Prelude.{
  ℕ, zero, suc, ◌<◌, ◌≡◌, refl, sym, ap, ◌∙◌, true, [], ◌∷◌, ◌==◌, if◌then◌else◌, ==_iff, Bytes,
  bytes_eq, table_passes, table_passes_entry,
}

-- httpGet, httpPut, httpPost, httpDelete, httpHead, httpPatch, httpOptions
unfoldable pub http_method_name : ℕ → Bytes
http_method_name zero = b'G' ∷ b'E' ∷ b'T' ∷ []
http_method_name (suc zero) = b'P' ∷ b'U' ∷ b'T' ∷ []
http_method_name (suc (suc zero)) = b'P' ∷ b'O' ∷ b'S' ∷ b'T' ∷ []
http_method_name (suc (suc (suc zero))) = b'D' ∷ b'E' ∷ b'L' ∷ b'E' ∷ b'T' ∷ b'E' ∷ []
http_method_name (suc (suc (suc (suc zero)))) = b'H' ∷ b'E' ∷ b'A' ∷ b'D' ∷ []
http_method_name (suc (suc (suc (suc (suc zero))))) = b'P' ∷ b'A' ∷ b'T' ∷ b'C' ∷ b'H' ∷ []
http_method_name (suc (suc (suc (suc (suc (suc zero)))))) =
    b'O' ∷ b'P' ∷ b'T' ∷ b'I' ∷ b'O' ∷ b'N' ∷ b'S' ∷ []
http_method_name (suc (suc (suc (suc (suc (suc (suc n))))))) = []

-- all, text, textPlain, textHtml, textXml, textCsv, application, applicationXml, applicationJson
unfoldable pub mime_name : ℕ → Bytes
mime_name zero = b'*' ∷ b'/' ∷ b'*' ∷ []
mime_name (suc zero) = b't' ∷ b'e' ∷ b'x' ∷ b't' ∷ b'/' ∷ b'*' ∷ []
mime_name (suc (suc zero)) =
    b't' ∷ b'e' ∷ b'x' ∷ b't' ∷ b'/' ∷ b'p' ∷ b'l' ∷ b'a' ∷ b'i' ∷ b'n' ∷ []
mime_name (suc (suc (suc zero))) = b't' ∷ b'e' ∷ b'x' ∷ b't' ∷ b'/' ∷ b'h' ∷ b't' ∷ b'm' ∷ b'l' ∷ []
mime_name (suc (suc (suc (suc zero)))) = b't' ∷ b'e' ∷ b'x' ∷ b't' ∷ b'/' ∷ b'x' ∷ b'm' ∷ b'l' ∷ []
mime_name (suc (suc (suc (suc (suc zero))))) =
    b't' ∷ b'e' ∷ b'x' ∷ b't' ∷ b'/' ∷ b'c' ∷ b'o' ∷ b'm' ∷ b'm' ∷ b'a' ∷ b'-' ∷ b's' ∷ b'e' ∷ b'p'
    ∷ b'a' ∷ b'r' ∷ b'a' ∷ b't' ∷ b'e' ∷ b'd' ∷ b'-' ∷ b'v' ∷ b'a' ∷ b'l' ∷ b'u' ∷ b'e' ∷ b's' ∷ []
mime_name (suc (suc (suc (suc (suc (suc zero)))))) =
    b'a' ∷ b'p' ∷ b'p' ∷ b'l' ∷ b'i' ∷ b'c' ∷ b'a' ∷ b't' ∷ b'i' ∷ b'o' ∷ b'n' ∷ b'/' ∷ b'*' ∷ []
mime_name (suc (suc (suc (suc (suc (suc (suc zero))))))) =
    b'a' ∷ b'p' ∷ b'p' ∷ b'l' ∷ b'i' ∷ b'c' ∷ b'a' ∷ b't' ∷ b'i' ∷ b'o' ∷ b'n' ∷ b'/' ∷ b'x' ∷ b'm'
    ∷ b'l' ∷ []
mime_name (suc (suc (suc (suc (suc (suc (suc (suc zero)))))))) =
    b'a' ∷ b'p' ∷ b'p' ∷ b'l' ∷ b'i' ∷ b'c' ∷ b'a' ∷ b't' ∷ b'i' ∷ b'o' ∷ b'n' ∷ b'/' ∷ b'j' ∷ b's'
    ∷ b'o' ∷ b'n' ∷ []
mime_name (suc (suc (suc (suc (suc (suc (suc (suc (suc n))))))))) = []

-- file, http, https
unfoldable pub protocol_name : ℕ → Bytes
protocol_name zero = b'f' ∷ b'i' ∷ b'l' ∷ b'e' ∷ []
protocol_name (suc zero) = b'h' ∷ b't' ∷ b't' ∷ b'p' ∷ []
protocol_name (suc (suc zero)) = b'h' ∷ b't' ∷ b't' ∷ b'p' ∷ b's' ∷ []
protocol_name (suc (suc (suc n))) = []

-- The first value below a bound that has a text.
unfoldable value_of : (ℕ → Bytes) → ℕ → Bytes → ℕ
unfolding bytes_eq
value_of names zero text = 0
value_of names (suc n) text =
    let later = value_of (λ k. names (suc k)) n text in
    if bytes_eq (names 0) text then 0 else suc later

names-injective :
    (names : ℕ → Bytes) (count : ℕ)
    → table_passes (λ n. value_of names count (names n) == n) count ≡ true
    → (m n : ℕ) → m < count
    → n < count
    → names m ≡ names n
    → m ≡ n
names-injective names count h m n below_m below_n same =
    let found = table_passes_entry (λ k. value_of names count (names k) == k) count h in
    sym ((==_iff (value_of names count (names m)) m).0 (found m below_m))
    ∙ ap (value_of names count) same
    ∙ (==_iff (value_of names count (names n)) n).0 (found n below_n)

-- The values of HttpMethod have texts of their own.
pub http_method_name-injective :
    (m n : ℕ) → m < 7 → n < 7 → http_method_name m ≡ http_method_name n → m ≡ n
unfolding http_method_name value_of table_passes bytes_eq
http_method_name-injective = names-injective http_method_name 7 refl

-- The values of MIME have texts of their own.
pub mime_name-injective : (m n : ℕ) → m < 9 → n < 9 → mime_name m ≡ mime_name n → m ≡ n
unfolding mime_name value_of table_passes bytes_eq
mime_name-injective = names-injective mime_name 9 refl

-- The values of Protocol have texts of their own.
pub protocol_name-injective : (m n : ℕ) → m < 3 → n < 3 → protocol_name m ≡ protocol_name n → m ≡ n
unfolding protocol_name value_of table_passes bytes_eq
protocol_name-injective = names-injective protocol_name 3 refl
