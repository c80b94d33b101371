-- ===== src/Database/Field/Held.antt =====
-- What `setValue` leaves in a field whose type fits the value, or is unknown.
use open_esl.Prelude.{
  ◌≡◌, refl, sym, ap, ◌∙◌, ◌⊎◌, inl, inr, true, false, not, ◌&&◌, ◌||◌, Option, none, some, arith,
  if◌then◌else◌, Bool-cases, if_true, if_false, bytes_eq_sound,
}
use open_esl.Database.Number.{ℤ, pos, negsuc, int_eq}
use open_esl.Database.Conversion.{
  DoubleOps, unknown, label, label_eq, Value, of_boolean, of_integer, of_double, of_string,
  label_of, type_of,
}
use open_esl.Database.Field.{Field, Changed, stored, same_value, write, set_value}

int_eq_sound : (i j : ℤ) → int_eq i j ≡ true → i ≡ j
unfolding int_eq
int_eq_sound (pos m) (pos n) h = ap pos (ground arith)
int_eq_sound (pos m) (negsuc n) h = cc
int_eq_sound (negsuc m) (pos n) h = cc
int_eq_sound (negsuc m) (negsuc n) h = ap negsuc (ground arith)

module _ {D : Type 0} ⦃o : DoubleOps D⦄ where
  -- Equal values, or numbers that `==` of `double` does not tell apart.
  abbrev pub Agrees : Value D → Value D → Type 0
  Agrees (of_double d) (of_double e) = (d ≡ e) ⊎ (o.same d e ≡ true)
  Agrees v w = v ≡ w

  Agrees-refl : (v : Value D) → Agrees v v
  Agrees-refl (of_boolean b) = refl
  Agrees-refl (of_integer i) = refl
  Agrees-refl (of_double d) = inl refl
  Agrees-refl (of_string s) = refl

  -- The field holds `w` and is not null; its type is kept, or was unknown and is that of `w`; and the
  -- result set is told unless the field held the value already.
  pub record Holds (f : Field D) (w : Value D) (g : Changed D) : Type 0 where
    pub not_null : g.field.value_is_null ≡ false
    pub value : Value D
    pub holds : stored g.field (label g.field.column_type) ≡ some value
    pub agrees : Agrees value w
    pub column :
        g.field.column_type
        ≡ (if label_eq (label f.column_type) unknown then type_of w else f.column_type)
    pub index : g.field.column_index ≡ f.column_index
    pub told : g.notified ≡ (
        f.result_set
        && (label_eq (label f.column_type) unknown || not (not f.value_is_null && same_value f w)))

  same_value-stored :
      (f : Field D) (w : Value D)
      → same_value f w ≡ true
      → (v : Value D) × (stored f (label_of w) ≡ some v) × Agrees v w
  unfolding same_value stored label_of
  same_value-stored f (of_boolean b) h =
      (of_boolean f.value_boolean, refl, ap of_boolean (ground arith))
  same_value-stored f (of_integer i) h =
      (of_integer f.value_integer, refl, ap of_integer (int_eq_sound f.value_integer i h))
  same_value-stored f (of_double d) h = (of_double f.value_double, refl, inr h)
  same_value-stored f (of_string s) h =
      (of_string f.value_string, refl, ap of_string (bytes_eq_sound f.value_string s h))

  write_lem :
      (f : Field D) (w : Value D)
      → (stored (write f w) (label_of w) ≡ some w)
        × ((write f w).value_is_null ≡ false)
        × ((write f w).column_type ≡ f.column_type)
        × ((write f w).column_index ≡ f.column_index)
  unfolding stored write label_of
  write_lem f (of_boolean b) = (refl, refl, refl, refl)
  write_lem f (of_integer i) = (refl, refl, refl, refl)
  write_lem f (of_double d) = (refl, refl, refl, refl)
  write_lem f (of_string s) = (refl, refl, refl, refl)

  label-type_of : (w : Value D) → label (type_of w) ≡ label_of w
  unfolding label type_of label_of
  label-type_of (of_boolean b) = refl
  label-type_of (of_integer i) = refl
  label-type_of (of_double d) = refl
  label-type_of (of_string s) = refl

  label_of-unknown :
      (w : Value D)
      → (label_eq (label_of w) unknown ≡ false) × (label_eq (label_of w) (label_of w) ≡ true)
  unfolding label_eq label_of
  label_of-unknown (of_boolean b) = (refl, refl)
  label_of-unknown (of_integer i) = (refl, refl)
  label_of-unknown (of_double d) = (refl, refl)
  label_of-unknown (of_string s) = (refl, refl)

  pub set_value_unknown :
      (f : Field D) (w : Value D)
      → label f.column_type ≡ unknown
      → (g : Changed D) × (set_value f w ≡ some g) × Holds f w g
  set_value_unknown f w h = (
    g,
    unfold set_value in if_true (label_eq (label f.column_type) unknown) _ _ is_unknown,
    record {
      not_null = l.1;
      value = w;
      holds = ap (λ c. stored g.field (label c)) l.2 ∙ ap (stored g.field) (label-type_of w) ∙ l.0;
      agrees = Agrees-refl w;
      column = l.2 ∙ sym (if_true (label_eq (label f.column_type) unknown) _ _ is_unknown);
      index = l.3;
      told = rw is_unknown (ground arith);
    },
  )
    where
      f' : Field D
      f' = record f { column_type = type_of w }

      g : Changed D
      g = record { field = write f' w; notified = f.result_set }

      l :
          (stored (write f' w) (label_of w) ≡ some w)
          × ((write f' w).value_is_null ≡ false)
          × ((write f' w).column_type ≡ f'.column_type)
          × ((write f' w).column_index ≡ f.column_index)
      l = write_lem f' w

      is_unknown : label_eq (label f.column_type) unknown ≡ true
      is_unknown = unfold label_eq in ap (λ c. label_eq c unknown) h

  pub set_value_known :
      (f : Field D) (w : Value D)
      → label f.column_type ≡ label_of w
      → (g : Changed D) × (set_value f w ≡ some g) × Holds f w g
  set_value_known f w h = elim (Bool-cases (not f.value_is_null && same_value f w)) [
    | inl e ↦
        let (v, s, a) = same_value-stored f w (ground arith) in
        (
          record { field = f; notified = false },
          known ∙ fits ∙ if_true (not f.value_is_null && same_value f w) _ _ e,
          record {
            not_null = ground arith;
            value = v;
            holds = ap (stored f) h ∙ s;
            agrees = a;
            column = sym (if_false (label_eq (label f.column_type) unknown) _ _ not_unknown);
            index = refl;
            told = rw (not_unknown, e) (ground arith);
          },
        )
    | inr e ↦
        let l = write_lem f w in
        (
          record { field = write f w; notified = f.result_set },
          known ∙ fits ∙ if_false (not f.value_is_null && same_value f w) _ _ e,
          record {
            not_null = l.1;
            value = w;
            holds = ap (λ c. stored (write f w) (label c)) l.2 ∙ ap (stored (write f w)) h ∙ l.0;
            agrees = Agrees-refl w;
            column = l.2 ∙ sym (if_false (label_eq (label f.column_type) unknown) _ _ not_unknown);
            index = l.3;
            told = rw (not_unknown, e) (ground arith);
          },
        )
  ]
    where
      body : Option (Changed D)
      body =
          if not f.value_is_null && same_value f w
          then some (record { field = f; notified = false })
          else some (record { field = write f w; notified = f.result_set })

      not_unknown : label_eq (label f.column_type) unknown ≡ false
      not_unknown = ap (λ c. label_eq c unknown) h ∙ (label_of-unknown w).0

      is_same : not (label_eq (label f.column_type) (label_of w)) ≡ false
      is_same = ap (λ c. not (label_eq c (label_of w))) h ∙ ap not (label_of-unknown w).1

      known :
          set_value f w ≡ (if not (label_eq (label f.column_type) (label_of w)) then none else body)
      known = unfold set_value in if_false (label_eq (label f.column_type) unknown) _ _ not_unknown

      fits : (if not (label_eq (label f.column_type) (label_of w)) then none else body) ≡ body
      fits = if_false (not (label_eq (label f.column_type) (label_of w))) none body is_same
