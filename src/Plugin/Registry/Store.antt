-- ===== src/Plugin/Registry/Store.antt =====
-- What is found after it was stored.
use open_esl.Prelude.{
  ℕ, ◌≡◌, refl, sym, ap, ap₂, ◌∙◌, Bool, true, false, ◌&&◌, Option, none, some, arith, ◌==◌,
  if◌then◌else◌, if_cases, Bytes, bytes_eq,
}
use open_esl.Plugin.Registry.{
  insert_object, replace_object, base_plugins, find_plugin, stored, create_from, Registry,
  find_object, set_object, Created, calls, get_plugins, create, add_plugin,
}

find_plugin-base_plugins :
    (name : Bytes) (entry : Option (Bytes → Option (Option ℕ)))
    → create_from (base_plugins entry name) ≡ find_plugin name entry
find_plugin-base_plugins name none = refl
find_plugin-base_plugins name (some plugins) = refl

stored-insert_object :
    (object : Option ℕ) (entry : Option (Option ℕ))
    → stored (insert_object object entry) ≡ elim entry [ none ↦ object | some p ↦ p ]
stored-insert_object object none = refl
stored-insert_object object (some p) = refl

stored-replace_object : (object : Option ℕ) → stored (replace_object object) ≡ object
stored-replace_object none = refl
stored-replace_object (some p) = refl

-- A function of a conditional.
if_apply :
    {A B : Type 0} (f : A → B) (b : Bool) (x y : A) (z w : B)
    → f x ≡ z
    → f y ≡ w
    → f (if b then x else y) ≡ (if b then z else w)
if_apply f true x y z w h k = h
if_apply f false x y z w h k = k

-- After `addPlugin` with a function, `create` calls that function for the interface and the name, and
-- does for every other interface or name what it did before.
create-add_plugin :
    (interface other : ℕ) (implementation name : Bytes) (function : ℕ) (r : Registry)
    → create other name (add_plugin interface implementation (some function) r) ≡ (
        if other == interface && bytes_eq name implementation
        then calls function
        else create other name r)
unfolding create add_plugin get_plugins
create-add_plugin interface other implementation name function r =
    let found : Bool → Created = λ here.
      if here && bytes_eq name implementation then calls function else create other name r in
    if_cases (λ entry. find_plugin name entry ≡ found (other == interface)) (other == interface) _ _
      (λ e.
        let same : other ≡ interface = ground (arith, e) in
        if_apply create_from (bytes_eq name implementation) (some (some function))
          (base_plugins (r.type_plugins interface) name) (calls function) (create other name r) refl
          (find_plugin-base_plugins name (r.type_plugins interface)
            ∙ ap (λ i. find_plugin name (r.type_plugins i)) (sym same))
        ∙ ap found (sym e))
      (λ e. ap found (sym e))

-- After `setObject`, `findObject` returns the new pointer for the type, null included, and what it
-- did before for every other type. Only the first object that is set for the type of the logging is
-- kept, and if that is null the type has none from then on.
pub find_object-set_object :
    (logging object_type other : ℕ) (object : Option ℕ) (r : Registry)
    → find_object other (set_object logging object_type object r) ≡ (
        if other == object_type
        then (if object_type == logging
            then elim (r.objects logging) [ none ↦ object | some p ↦ p ]
            else object)
        else find_object other r)
unfolding find_object set_object
find_object-set_object logging object_type other object r =
    let set : Bool → Option ℕ = λ is_logging.
      if is_logging then elim (r.objects logging) [ none ↦ object | some p ↦ p ] else object in
    if_cases
      (λ s.
        find_object other s
        ≡ (if other == object_type then set (object_type == logging) else find_object other r))
      (object_type == logging) _ _
      (λ e.
        let same : object_type ≡ logging = ground (arith, e) in
        if_apply stored (other == logging) (insert_object object (r.objects logging))
          (r.objects other) (set true) (find_object other r)
          (stored-insert_object object (r.objects logging)) refl
        ∙ ap₂ (λ t b. if other == t then set b else find_object other r) (sym same) (sym e))
      (λ e.
        if_apply stored (other == object_type) (replace_object object) (r.objects other) (set false)
          (find_object other r) (stored-replace_object object) refl
        ∙ ap (λ b. if other == object_type then set b else find_object other r) (sym e))
