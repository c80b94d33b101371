-- ===== src/Object/ProcessingContext.antt =====
-- The container of features/common4esl/src/common4esl/object/ProcessingContext.cpp: `addObject`,
-- `addAlias` and the lookups. A number stands for the pointer of an object; the map `objects` is an
-- association list, in the order of insertion. Where the code throws, the result is `none`.
pub mod Ids
mod Tests
use open_esl.Prelude.{
  ℕ, ◌+◌, refl, ap, Bool, true, false, not, Option, none, some, List, [], ◌∷◌, ◌++◌, map,
  if◌then◌else◌, is_empty, Bytes, bytes_eq,
}

-- `IdElement`: whether it owns the object that it refers to, the object, and whether
-- `initializeContext` has still to be called for it.
pub record IdElement : Type 0 where
  pub owned : Bool
  pub ref_object : ℕ
  pub initialize_context : Bool

-- `ProcessingContextEntry` over an object of its own or of another owner.
pub data Entry : Type 0 where
  owning : ℕ → Entry
  referring : ℕ → Entry

-- The parent is what its own `findObject` returns.
pub record ProcessingContext : Type 0 where
  pub parent : Option (Bytes → Option ℕ)
  pub entries : List Entry
  pub objects : List (Bytes × IdElement)

-- `objects.find`
unfoldable pub find_element : Bytes → List (Bytes × IdElement) → Option IdElement
find_element id [] = none
find_element id ((key, element) ∷ rest) =
    let behind = find_element id rest in if bytes_eq key id then some element else behind

-- `objects.count(id) > 0`
unfoldable pub contains : Bytes → List (Bytes × IdElement) → Bool
unfolding find_element
contains id objects = elim (find_element id objects) [ none ↦ false | some e ↦ true ]

-- `objects.insert`, which leaves the map as it is if the id is there, and says whether it was not.
unfoldable pub insert :
    Bytes → IdElement → List (Bytes × IdElement) → List (Bytes × IdElement) × Bool
unfolding contains
insert id element objects =
    if contains id objects then (objects, false) else (objects ++ (id, element) ∷ [], true)

-- `findRawObject`. The parent is asked for an id that is not found here, but what it returns is
-- not used.
unfoldable pub find_raw_object : ProcessingContext → Bytes → Option ℕ
unfolding find_element
find_raw_object c id = elim (find_element id c.objects) [ none ↦ none | some e ↦ some e.ref_object ]

-- `addObject` of an object that has to be initialised or not. An object that is a
-- `ProcessingContext` itself gets this context for its parent then.
unfoldable pub add_object : ProcessingContext → Bytes → ℕ → Bool → Option ProcessingContext
unfolding insert
add_object c [] object initialize = some (record c { entries = c.entries ++ owning object ∷ [] })
add_object c (b ∷ bs) object initialize =
    let element : IdElement = record {
      owned = true;
      ref_object = object;
      initialize_context = initialize;
    } in
    let (objects, inserted) = insert (b ∷ bs) element c.objects in
    if inserted then some (record c { objects = objects }) else none

-- What `addAlias` does with what `findRawObject` returned; the test on the id is that of the code.
unfoldable pub add_reference : ProcessingContext → Bytes → Option ℕ → Option ProcessingContext
unfolding contains insert
add_reference c destination_id none = none
add_reference c destination_id (some object) =
    let element : IdElement = record {
      owned = false;
      ref_object = object;
      initialize_context = false;
    } in
    if is_empty destination_id
    then some (record c { entries = c.entries ++ referring object ∷ [] })
    else if not (contains destination_id c.objects)
    then none
    else some (record c { objects = (insert destination_id element c.objects).0 })

unfoldable pub add_alias : ProcessingContext → Bytes → Bytes → Option ProcessingContext
unfolding add_reference find_raw_object
add_alias c destination_id source_id = add_reference c destination_id (find_raw_object c source_id)

-- `getObjectIds`
unfoldable pub get_object_ids : ProcessingContext → List Bytes
get_object_ids c = map (λ (p : Bytes × IdElement). p.0) c.objects
