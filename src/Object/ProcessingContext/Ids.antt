-- ===== src/Object/ProcessingContext/Ids.antt =====
-- What `addObject` and `addAlias` do to the ids of a context.
use open_esl.Prelude.{
  ℕ, ◌≡◌, refl, sym, ap, ◌∙◌, ◌⊎◌, inl, inr, Bool, true, false, not, Option, none, some, List, [],
  ◌∷◌, ◌++◌, if◌then◌else◌, Bool-cases, Option-cases, if_cases, if_true, if_false, Bytes, bytes_eq,
  bytes_eq_refl, bytes_eq_sound,
}
use open_esl.Object.ProcessingContext.{
  IdElement, ProcessingContext, find_element, contains, insert, find_raw_object, add_object,
  add_reference, add_alias,
}

contains_cons :
    (id key : Bytes) (e : IdElement) (rest : List (Bytes × IdElement))
    → contains id ((key, e) ∷ rest) ≡ false
    → (bytes_eq key id ≡ false) × (contains id rest ≡ false)
unfolding contains find_element
contains_cons id key e rest =
    if_cases
      (λ (x : Option IdElement).
        (elim x as (λ y. Bool) [ none ↦ false | some f ↦ true ]) ≡ false
        → (bytes_eq key id ≡ false) × (contains id rest ≡ false))
      (bytes_eq key id) (some e) (find_element id rest) (λ same h. cc) (λ differs h. (differs, h))

insert_present :
    (id : Bytes) (element : IdElement) (objects : List (Bytes × IdElement))
    → contains id objects ≡ true
    → insert id element objects ≡ (objects, false)
unfolding insert
insert_present id element objects h = if_true (contains id objects) _ _ h

insert_absent :
    (id : Bytes) (element : IdElement) (objects : List (Bytes × IdElement))
    → contains id objects ≡ false
    → insert id element objects ≡ (objects ++ (id, element) ∷ [], true)
unfolding insert
insert_absent id element objects h = if_false (contains id objects) _ _ h

find_element-append :
    (k id : Bytes) (element : IdElement) (objects : List (Bytes × IdElement))
    → contains id objects ≡ false
    → find_element k (objects ++ (id, element) ∷ [])
      ≡ (if bytes_eq id k then some element else find_element k objects)
unfolding find_element contains
find_element-append k id element [] h = refl
find_element-append k id element ((key, e) ∷ rest) h =
    let split = contains_cons id key e rest h in
    elim (Bool-cases (bytes_eq key k)) [
      | inl same ↦
          let other : bytes_eq id k ≡ false = elim (Bool-cases (bytes_eq id k)) [
            | inl equal ↦
                let ids : key ≡ id = bytes_eq_sound key k same ∙ sym (bytes_eq_sound id k equal) in
                absurd (cc (split.0, ids, bytes_eq_refl id))
            | inr differs ↦ differs
          ] in
          rw (same, other) refl
      | inr differs ↦ rw differs (find_element-append k id element rest split.1)
    ]

abbrev referenced : Option IdElement → Option ℕ
referenced none = none
referenced (some e) = some e.ref_object

referenced_if :
    (b : Bool) (e : IdElement) (o : Option IdElement)
    → referenced (if b then some e else o) ≡ (if b then some e.ref_object else referenced o)
referenced_if true e o = refl
referenced_if false e o = refl

find_raw_object_lem :
    (c : ProcessingContext) (k : Bytes)
    → find_raw_object c k ≡ referenced (find_element k c.objects)
unfolding find_raw_object
find_raw_object_lem c k =
    elim (find_element k c.objects)
      as (λ o.
        elim o as (λ y. Option ℕ) [ none ↦ none | some e ↦ some e.ref_object ] ≡ referenced o) [
          | none ↦ refl
          | some e ↦ refl
        ]

-- Adding an object under an id that is not empty: if the id is there already, `addObject` throws.
-- Otherwise the object is found under this id, and under any other id what was found before.
add_object_lem :
    (c : ProcessingContext) (b : ℕ) (bs k : Bytes) (object : ℕ) (initialize : Bool)
    → ((contains (b ∷ bs) c.objects ≡ true) × (add_object c (b ∷ bs) object initialize ≡ none))
      ⊎ ((d : ProcessingContext) × (contains (b ∷ bs) c.objects ≡ false)
          × (add_object c (b ∷ bs) object initialize ≡ some d)
          × (find_raw_object d k
              ≡ (if bytes_eq (b ∷ bs) k then some object else find_raw_object c k)))
unfolding add_object
add_object_lem c b bs k object initialize =
    let added : IdElement = record {
      owned = true;
      ref_object = object;
      initialize_context = initialize;
    } in
    elim (Bool-cases (contains (b ∷ bs) c.objects)) [
      | inl e ↦ inl (e, rw (insert_present (b ∷ bs) added c.objects e) refl)
      | inr e ↦ inr (
        record c { objects = c.objects ++ (b ∷ bs, added) ∷ [] },
        e,
        rw (insert_absent (b ∷ bs) added c.objects e) refl,
        find_raw_object_lem (record c { objects = c.objects ++ (b ∷ bs, added) ∷ [] }) k
            ∙ ap referenced (find_element-append k (b ∷ bs) added c.objects e)
            ∙ referenced_if (bytes_eq (b ∷ bs) k) added (find_element k c.objects)
            ∙ ap (λ o. if bytes_eq (b ∷ bs) k then some object else o)
                (sym (find_raw_object_lem c k)),
      )
    ]

-- `addAlias` never adds an alias under an id that is not empty: it throws if the source is not found
-- or the id is free, and otherwise leaves the context as it is.
add_alias_lem :
    (c : ProcessingContext) (b : ℕ) (bs source_id : Bytes)
    → (((find_raw_object c source_id ≡ none) ⊎ (contains (b ∷ bs) c.objects ≡ false))
        × (add_alias c (b ∷ bs) source_id ≡ none))
      ⊎ ((object : ℕ) × (find_raw_object c source_id ≡ some object)
          × (contains (b ∷ bs) c.objects ≡ true)
          × (add_alias c (b ∷ bs) source_id ≡ some c))
unfolding add_reference
add_alias_lem c b bs source_id = elim (Option-cases (find_raw_object c source_id)) [
  | inl missing ↦ inl (inl missing, unfold add_alias in ap (add_reference c (b ∷ bs)) missing)
  | inr (object, found) ↦ elim (Bool-cases (contains (b ∷ bs) c.objects)) [
    | inl e ↦ inr (
      object,
      found,
      e,
      unfold add_alias in
          (ap (add_reference c (b ∷ bs)) found
            ∙ if_false (not (contains (b ∷ bs) c.objects)) _ _ (ap not e)
            ∙ ap (λ (x : List (Bytes × IdElement) × Bool). some (record c { objects = x.0 }))
                (insert_present (b ∷ bs)
                  (record { owned = false; ref_object = object; initialize_context = false })
                  c.objects e)),
    )
    | inr e ↦ inl (
      inr e,
      unfold add_alias in
          (ap (add_reference c (b ∷ bs)) found
            ∙ if_true (not (contains (b ∷ bs) c.objects)) _ _ (ap not e)),
    )
  ]
]
