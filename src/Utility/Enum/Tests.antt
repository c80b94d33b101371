-- ===== src/Utility/Enum/Tests.antt =====
-- HTTP methods as values and as texts.
use open_esl.Prelude.{◌≡◌, refl, true, not, [], ◌∷◌, arith, Bytes, bytes_eq}
use open_esl.Utility.Enum.{
  of_enum, of_string, to_string, text_less, equal, less, less_equal, greater, greater_equal,
}
use open_esl.Utility.Enum.Names.{http_method_name, http_method_name-injective}
use open_esl.Utility.Enum.Order.{IsOneOf, comparisons-total}

abbrev put_text : Bytes
put_text = b'P' ∷ b'U' ∷ b'T' ∷ []

put_twice : equal http_method_name (of_enum 1) (of_string 0 put_text) ≡ true
unfolding equal to_string of_enum of_string http_method_name bytes_eq
put_twice = refl

comparisons-total_example :
    IsOneOf
      (less http_method_name (of_enum 0) (of_enum 1))
      (equal http_method_name (of_enum 0) (of_enum 1))
      (greater http_method_name (of_enum 0) (of_enum 1))
    × (less_equal http_method_name (of_enum 0) (of_enum 1)
        ≡ not (greater http_method_name (of_enum 0) (of_enum 1)))
    × (greater_equal http_method_name (of_enum 0) (of_enum 1)
        ≡ not (less http_method_name (of_enum 0) (of_enum 1)))
    × (equal http_method_name (of_enum 0) (of_enum 1)
        ≡ bytes_eq
            (to_string http_method_name (of_enum 0))
            (to_string http_method_name (of_enum 1)))
    × (less http_method_name (of_enum 0) (of_enum 1)
        ≡ text_less
            (to_string http_method_name (of_enum 0))
            (to_string http_method_name (of_enum 1)))
unfolding of_enum
comparisons-total_example =
    comparisons-total http_method_name (of_enum 0) (of_enum 1)
      (λ a b same. http_method_name-injective 0 1 (omega arith) (omega arith) same)
