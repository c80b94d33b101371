-- ===== src/Utility/Enum.antt =====
-- The template `Enum` of esl/src/esl/utility/Enum.h and its instances HttpMethod, MIME and Protocol
-- there. A value of an enumeration is its number; `names` is the static `toString` of an instance.
pub mod Names
pub mod Order
mod Tests
use open_esl.Prelude.{
  ℕ, zero, suc, ◌+◌, ◌-◌, ◌*◌, ◌/◌, ◌%◌, ◌^◌, ◌≤◌, ◌<◌, ◌≡◌, refl, sym, ap, ap₂, subst, ◌∙◌, ◌≡⟨◌⟩◌,
  ◌∎, ◌≢◌, ◌⊎◌, inl, inr, Bool, true, false, not, ◌&&◌, ◌||◌, Option, none, some, some-injective,
  List, [], ◌∷◌, ◌++◌, map, reverse, append-nil, append_assoc, reverse-append, reverse-reverse,
  reverse-cons, arith, ltb, leb, ◌==◌, if◌then◌else◌, ltb→lt, lt→ltb, ==_iff, ==-refl, Bool-cases,
  Option-cases, if_cases, if_true, if_false, length, is_empty, get_elem?, get_or, take, drop,
  replicate, All, length-append, All-append, All-imp, get_elem?-append_left, get_elem?-append_at,
  concat, concat-append, Bytes, IsByte, bytes_eq, bytes_eq_refl, bytes_eq_sound, table_passes,
  table_passes_entry, take-drop_add, length-drop, take_all, take-append-drop, drop-drop,
  drop-append,
}

pub record Enum : Type 0 where
  pub has_enum : Bool
  pub enum_type : ℕ
  pub string_type : Bytes

unfoldable pub of_enum : ℕ → Enum
of_enum type = record { has_enum = true; enum_type = type; string_type = [] }

-- The default value of the enumeration is a parameter of the template.
unfoldable pub of_string : ℕ → Bytes → Enum
of_string default_type type = record {
  has_enum = false;
  enum_type = default_type;
  string_type = type;
}

unfoldable pub to_string : (ℕ → Bytes) → Enum → Bytes
to_string names e = if e.has_enum then names e.enum_type else e.string_type

unfoldable pub get_enum_type : Enum → Option ℕ
get_enum_type e = if e.has_enum then some e.enum_type else none

unfoldable pub is_set : Enum → Bool
is_set e = e.has_enum || not (is_empty e.string_type)

-- `operator<` of `std::string`
unfoldable pub text_less : Bytes → Bytes → Bool
text_less [] [] = false
text_less [] (y ∷ ys) = true
text_less (x ∷ xs) [] = false
text_less (x ∷ xs) (y ∷ ys) = ltb x y || ((x == y) && text_less xs ys)

-- The test on the enumeration types that the comparisons start with.
unfoldable pub same_enum : Enum → Enum → Bool
same_enum a b = a.has_enum && b.has_enum && (a.enum_type == b.enum_type)

unfoldable pub equal : (ℕ → Bytes) → Enum → Enum → Bool
unfolding to_string bytes_eq
equal names a b =
    if a.has_enum && b.has_enum
    then a.enum_type == b.enum_type
    else bytes_eq (to_string names a) (to_string names b)

unfoldable pub less : (ℕ → Bytes) → Enum → Enum → Bool
unfolding to_string same_enum text_less
less names a b = if same_enum a b then false else text_less (to_string names a) (to_string names b)

unfoldable pub less_equal : (ℕ → Bytes) → Enum → Enum → Bool
unfolding to_string same_enum text_less
less_equal names a b =
    if same_enum a b then true else not (text_less (to_string names b) (to_string names a))

unfoldable pub greater : (ℕ → Bytes) → Enum → Enum → Bool
unfolding to_string same_enum text_less
greater names a b =
    if same_enum a b then false else text_less (to_string names b) (to_string names a)

unfoldable pub greater_equal : (ℕ → Bytes) → Enum → Enum → Bool
unfolding to_string same_enum text_less
greater_equal names a b =
    if same_enum a b then true else not (text_less (to_string names a) (to_string names b))
