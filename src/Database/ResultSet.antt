-- ===== src/Database/ResultSet.antt =====
-- esl/src/esl/database/ResultSet.h and ResultSet.cpp. The derived class of `ResultSet::Binding` is a
-- parameter: `D` is its state, `V` the values of the fields, and an exception of its is a number.
pub mod Fields
pub mod Assignments
pub mod Outcomes
pub mod Edits
pub mod Names
mod Tests
use open_esl.Prelude.{
  ℕ, zero, suc, refl, Bool, true, false, not, ◌&&◌, Option, none, some, List, [], ◌∷◌,
  if◌then◌else◌, length, get_elem?, replicate, Bytes, bytes_eq,
}

-- What a call of the binding leaves: its state, the fields that it got by reference, and what it
-- threw.
pub record Called (D V : Type 0) : Type 0 where
  pub driver : D
  pub fields : List V
  pub thrown : Option ℕ

-- `ResultSet::Binding`. The `Bool` is what `fetch` returns.
pub record Binding (D V : Type 0) : Type 0 where
  pub columns : List Bytes
  pub fetch : D → List V → Called D V × Bool
  pub is_editable : D → ℕ → Bool
  pub add : D → List V → Called D V
  pub save : D → List V → Called D V

-- The exceptions, those of the binding included; `of_field` is one that an assignment to a field
-- throws before it changes the field.
pub data Error : Type 0 where
  at_end : Error
  cannot_edit : Error
  unknown_field : Error
  out_of_range : Error
  of_field : Error
  of_binding : ℕ → Error

-- `none` for `binding` is the null pointer.
pub record ResultSet (D V : Type 0) : Type 0 where
  pub binding : Option D
  pub fields : List V
  pub values_changed : Bool
  pub fetching : Bool

-- The entry of `nameToIndex` for a name: the constructor fills the map in the order of the columns,
-- and a later column takes the place of an earlier one with its name.
unfoldable pub name_to_index : List Bytes → Bytes → Option ℕ
unfolding bytes_eq
name_to_index [] name = none
name_to_index (column ∷ columns) name = elim (name_to_index columns name) [
  | some i ↦ some (suc i)
  | none ↦ if bytes_eq column name then some 0 else none
]

module _ {V : Type 0} where
  -- An assignment to the field at an index.
  unfoldable pub set_field : ℕ → V → List V → List V
  set_field i v [] = []
  set_field zero v (x ∷ xs) = v ∷ xs
  set_field (suc i) v (x ∷ xs) = x ∷ set_field i v xs

module _ {D V : Type 0} (b : Binding D V) where
  abbrev Set : Type 0
  Set = ResultSet D V

  -- The state after a call of the binding that may throw.
  unfoldable pub called : Called D V → Set → Set
  called c r = record r { binding = some c.driver; fields = c.fields }

  unfoldable pub save_called : Called D V → Set → Set × Option Error
  unfolding called
  save_called c r = elim c.thrown [
    | none ↦ (record (called c r) { values_changed = false }, none)
    | some e ↦ (called c r, some (of_binding e))
  ]

  unfoldable pub save : Set → Set × Option Error
  unfolding save_called
  save r =
      if r.values_changed
      then elim r.binding [ none ↦ (r, some at_end) | some d ↦ save_called (b.save d r.fields) r ]
      else (r, none)

  -- `next` from the call of `fetch` on; `fetching` is true then.
  unfoldable pub fetch_called : Called D V → Bool → Set → Set × Option Error
  unfolding called
  fetch_called c found r = elim c.thrown [
    | none ↦ (
      record (called c r) {
        binding = if found then some c.driver else none;
        fetching = false;
        values_changed = false;
      },
      none,
    )
    | some e ↦ (record (called c r) { fetching = true }, some (of_binding e))
  ]

  unfoldable pub fetch : Set → Set × Option Error
  unfolding fetch_called
  fetch r = elim r.binding [
    | none ↦ (r, some at_end)
    | some d ↦ fetch_called (b.fetch d r.fields).0 (b.fetch d r.fields).1 r
  ]

  -- What follows the call of `save`, which may throw.
  unfoldable pub after_save : (Set → Set × Option Error) → Set × Option Error → Set × Option Error
  after_save go (r, none) = go r
  after_save go (r, some e) = (r, some e)

  unfoldable pub next : Set → Set × Option Error
  unfolding save fetch after_save
  next r = elim r.binding [ none ↦ (r, some at_end) | some d ↦ after_save fetch (save r) ]

  unfoldable pub add_called : Called D V → Set → Set × Option Error
  unfolding called
  add_called c r = elim c.thrown [
    | none ↦ (called c r, none)
    | some e ↦ (called c r, some (of_binding e))
  ]

  unfoldable pub add_row : Set → Set × Option Error
  unfolding add_called
  add_row r = elim r.binding [ none ↦ (r, some at_end) | some d ↦ add_called (b.add d r.fields) r ]

  unfoldable pub add : Set → Set × Option Error
  unfolding save add_row after_save
  add r = elim r.binding [ none ↦ (r, some at_end) | some d ↦ after_save add_row (save r) ]

  -- Whether `setChanged` throws.
  unfoldable pub is_refused : ℕ → Set → Bool
  is_refused i r = elim r.binding [
    | none ↦ false
    | some d ↦ not r.fetching && not (b.is_editable d i)
  ]

  unfoldable pub set_changed : ℕ → Set → Set × Option Error
  unfolding is_refused
  set_changed i r =
      if is_refused i r
      then (r, some cannot_edit)
      else if r.fetching
      then (r, none)
      else (record r { values_changed = true }, none)

  -- The constructor, whose fields start as `empty`, the value of a field with no value.
  unfoldable pub construct : V → Option D → Set × Option Error
  unfolding next
  construct empty none =
      (record { binding = none; fields = []; values_changed = false; fetching = false }, none)
  construct empty (some d) = next (record {
    binding = some d;
    fields = replicate (length b.columns) empty;
    values_changed = false;
    fetching = false;
  })

  -- The move constructor: the new result set, and what is left of the other.
  unfoldable pub move : Set → Set × Set
  move r = (
    record r { fetching = false },
    record r { binding = none; fields = []; values_changed = false },
  )

  -- `operator[]` by the index, and by the name.
  unfoldable pub field_at : Set → ℕ → Option V × Option Error
  field_at r i = elim r.binding [
    | none ↦ (none, some at_end)
    | some d ↦ elim (get_elem? r.fields i) [
      | none ↦ (none, some out_of_range)
      | some v ↦ (some v, none)
    ]
  ]

  unfoldable pub field_named : Set → Bytes → Option V × Option Error
  unfolding name_to_index
  field_named r name = elim r.binding [
    | none ↦ (none, some at_end)
    | some d ↦ elim (name_to_index b.columns name) [
      | none ↦ (none, some unknown_field)
      | some i ↦ (get_elem? r.fields i, none)
    ]
  ]
