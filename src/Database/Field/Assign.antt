-- ===== src/Database/Field/Assign.antt =====
-- What a field holds after a value has been assigned to it.
use open_esl.Prelude.{
  ap₂, not, ◌&&◌, ◌||◌, ℕ, Bool, ◌≡◌, refl, ap, ◌∙◌, ◌⊎◌, inl, inr, false, Option, none, some,
  some-injective, Bytes,
}
use open_esl.Database.Number.{ℤ, print_integer}
use open_esl.Database.Number.RoundTrip.{Fits64, stoll-print_integer}
use open_esl.Database.Conversion.{
  DoubleOps, Label, boolean, integer, double, string, unknown, other, label, label_eq, Value,
  of_boolean, of_integer, of_double, of_string, to_string, to_integer, to_double, to_boolean,
  label_of,
}
use open_esl.Database.Field.{
  as_boolean, as_integer, as_string, set_value_operator, set_value_as, Field, Changed, stored,
  throws, same_value, set_value,
}
use open_esl.Database.Field.Held.{Agrees, Holds, set_value_unknown, set_value_known}

module _ {D : Type 0} ⦃o : DoubleOps D⦄ where
  -- The value after the conversion to what the column stores; `none` where a conversion throws and
  -- for the columns that no value is stored in.
  abbrev pub converted : Label → Value D → Option (Value D)
  converted boolean v = some (of_boolean (to_boolean v))
  converted integer v = elim (to_integer v) [ none ↦ none | some i ↦ some (of_integer i) ]
  converted double v = elim (to_double v) [ none ↦ none | some d ↦ some (of_double d) ]
  converted string v = some (of_string (to_string v))
  converted unknown v = some v
  converted other v = none

  set_value_as_lem :
      (c : Label) (f : Field D) (v w : Value D)
      → converted c v ≡ some w
      → (set_value_as c f v ≡ set_value f w) × ((c ≡ unknown) ⊎ (c ≡ label_of w))
  unfolding set_value_as label_of
  set_value_as_lem boolean f v w h =
      (ap (set_value f) (some-injective _ _ h), inr (ap label_of (some-injective _ _ h)))
  set_value_as_lem integer f v w h =
      (elim (to_integer v)
          as (λ r.
            elim r [ none ↦ none | some i ↦ some (of_integer i) ] ≡ some w
            → (elim r [ none ↦ none | some i ↦ set_value f (of_integer i) ] ≡ set_value f w)
              × ((integer ≡ unknown) ⊎ (integer ≡ label_of w))) [
                | none ↦ λ e. cc
                | some i ↦ λ e. (
                  ap (set_value f) (some-injective _ _ e),
                  inr (ap label_of (some-injective _ _ e)),
                )
              ])
        h
  set_value_as_lem double f v w h =
      (elim (to_double v)
          as (λ r.
            elim r [ none ↦ none | some i ↦ some (of_double i) ] ≡ some w
            → (elim r [ none ↦ none | some i ↦ set_value f (of_double i) ] ≡ set_value f w)
              × ((double ≡ unknown) ⊎ (double ≡ label_of w))) [
                | none ↦ λ e. cc
                | some i ↦ λ e. (
                  ap (set_value f) (some-injective _ _ e),
                  inr (ap label_of (some-injective _ _ e)),
                )
              ])
        h
  set_value_as_lem string f v w h =
      (ap (set_value f) (some-injective _ _ h), inr (ap label_of (some-injective _ _ h)))
  set_value_as_lem unknown f v w h = (ap (set_value f) (some-injective _ _ h), inl refl)
  set_value_as_lem other f v w h = cc

  -- What becomes of an assignment of a value that the conversion to the column's type accepts: the
  -- field is then not null and holds the converted value, its type is kept, or was unknown and is
  -- the value's, and the result set is told exactly when the field has one and did not hold the
  -- value before. The assignment throws exactly if the result set is told and refuses the index of
  -- the field's column; the field holds the value even then. The column is not of a type that
  -- `setValueOperator` leaves alone (`converted` is `none` there).
  pub set_value_operator_lem :
      (f : Field D) (v w : Value D) (refuses : ℕ → Bool)
      → converted (label f.column_type) v ≡ some w
      → (g : Changed D) × (set_value_operator f v ≡ some g)
        × Holds f w g
        × (throws refuses g ≡ (
            (f.result_set
              && (label_eq (label f.column_type) unknown
                  || not (not f.value_is_null && same_value f w)))
            && refuses f.column_index))
  unfolding throws
  set_value_operator_lem f v w refuses h =
      let (same, fits) = set_value_as_lem (label f.column_type) f v w h in
      let set : (g : Changed D) × (set_value f w ≡ some g) × Holds f w g = elim fits [
        | inl u ↦ set_value_unknown f w u
        | inr k ↦ set_value_known f w k
      ] in
      let held = set.2 in
      (
        set.0,
        unfold set_value_operator in (same ∙ set.1),
        held,
        ap₂ (λ told i. told && refuses i) held.told held.index,
      )

  Agrees-string : (v : Value D) (s : Bytes) → Agrees v (of_string s) → v ≡ of_string s
  Agrees-string (of_boolean b) s h = h
  Agrees-string (of_integer i) s h = h
  Agrees-string (of_double d) s h = h
  Agrees-string (of_string t) s h = h

  -- An integer of 64 bits that is assigned to a text column is stored as its decimal text, and
  -- `asInteger` reads the same integer back, while `asBoolean` reads `false`, whatever the integer.
  set_value_operator_text :
      (f : Field D) (i : ℤ)
      → label f.column_type ≡ string
      → Fits64 i
      → (g : Changed D) × (set_value_operator f (of_integer i) ≡ some g)
        × (as_string g.field ≡ some (print_integer i))
        × (as_integer g.field ≡ some i)
        × (as_boolean g.field ≡ some false)
  unfolding as_string as_integer as_boolean to_string to_integer to_boolean
  set_value_operator_text f i h fits =
      let assigned =
        set_value_operator_lem f (of_integer i) (of_string (print_integer i)) (λ _. false)
          is_converted in
      let held = assigned.2 in
      let is_text : stored assigned.0.field (label assigned.0.field.column_type)
          ≡ some (of_string (print_integer i)) =
        held.holds ∙ ap some (Agrees-string held.value (print_integer i) held.agrees) in
      (
        assigned.0,
        assigned.1,
        rw (held.not_null, is_text) refl,
        rw (held.not_null, is_text) (stoll-print_integer i fits),
        rw (held.not_null, is_text) refl,
      )
    where
      is_converted :
          converted (label f.column_type) (of_integer i) ≡ some (of_string (print_integer i))
      is_converted = rw h refl
