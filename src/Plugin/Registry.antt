-- ===== src/Plugin/Registry.antt =====
-- esl/src/esl/plugin/Registry.h and Registry.cpp: what one registry stores. A `type_index` is a
-- number, a map is a function on its keys, an object and a `CreateFunction` stand for their pointers.
pub mod Store
pub mod Global
mod Tests
use open_esl.Prelude.{ℕ, refl, not, Option, none, some, ◌==◌, if◌then◌else◌, Bytes, bytes_eq}

-- `objects` has a null pointer where the inner `Option` is `none`; a plugin has the pointer of its
-- function, which may be null.
pub record Registry : Type 0 where
  pub objects : ℕ → Option (Option ℕ)
  pub type_plugins : ℕ → Option (Bytes → Option (Option ℕ))

unfoldable pub new_registry : Registry
new_registry = record { objects = λ _. none; type_plugins = λ _. none }

abbrev pub assign {ℓ} : {A : Type ℓ} → ℕ → A → (ℕ → A) → ℕ → A
assign key x f k = if k == key then x else f k

-- An entry of `objects`, or its absence, as a pointer.
abbrev pub stored : Option (Option ℕ) → Option ℕ
stored none = none
stored (some p) = p

unfoldable pub find_object : ℕ → Registry → Option ℕ
find_object object_type r = stored (r.objects object_type)

-- `insert` of an object, and the other branches: `operator[]` or `erase`.
abbrev pub insert_object : Option ℕ → Option (Option ℕ) → Option (Option ℕ)
insert_object object none = some object
insert_object object (some p) = some p

abbrev pub replace_object : Option ℕ → Option (Option ℕ)
replace_object none = none
replace_object (some p) = some (some p)

-- `typeid(monitoring::Logging)` is the parameter `logging`.
unfoldable pub set_object : ℕ → ℕ → Option ℕ → Registry → Registry
set_object logging object_type object r =
    if object_type == logging
    then record r { objects = assign logging (insert_object object (r.objects logging)) r.objects }
    else record r { objects = assign object_type (replace_object object) r.objects }

-- What `create` comes to: it throws `PluginNotFound`, it throws because there is no function, or it
-- calls the function.
pub data Created : Type 0 where
  plugin_not_found : Created
  no_factory : Created
  calls : ℕ → Created

-- `emptyBasePlugings` for an interface that has no entry.
abbrev pub base_plugins : Option (Bytes → Option (Option ℕ)) → Bytes → Option (Option ℕ)
base_plugins none name = none
base_plugins (some plugins) name = plugins name

unfoldable pub get_plugins : ℕ → Registry → Bytes → Option (Option ℕ)
get_plugins interface r = base_plugins (r.type_plugins interface)

-- The plugin that is found.
abbrev pub create_from : Option (Option ℕ) → Created
create_from none = plugin_not_found
create_from (some none) = no_factory
create_from (some (some function)) = calls function

abbrev pub find_plugin : Bytes → Option (Bytes → Option (Option ℕ)) → Created
find_plugin name none = plugin_not_found
find_plugin name (some plugins) = create_from (plugins name)

unfoldable pub create : ℕ → Bytes → Registry → Created
create interface implementation r = find_plugin implementation (r.type_plugins interface)

-- `addPlugin`, which replaces a plugin of the same interface and name.
unfoldable pub add_plugin : ℕ → Bytes → Option ℕ → Registry → Registry
unfolding get_plugins bytes_eq
add_plugin interface implementation function r =
    let plugins : Bytes → Option (Option ℕ) = λ name.
      if bytes_eq name implementation then some function else get_plugins interface r name in
    record r { type_plugins = assign interface (some plugins) r.type_plugins }
