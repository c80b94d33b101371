-- ===== src/Plugin/Registry/Tests.antt =====
-- The registry on concrete inputs.
use open_esl.Prelude.{◌==◌, if◌then◌else◌, ◌≡◌, refl, true, false, none, some, ◌==◌, if◌then◌else◌}
use open_esl.Plugin.Registry.{Registry, new_registry, find_object, set_object}
use open_esl.Plugin.Registry.Store.{find_object-set_object}
use open_esl.Plugin.Registry.Global.{
  Global, get, get_by, set, cleanup, delete, destroy, same_pointer, gets, sets, cleans_up,
  constructs, Reach, start, next, get-alive,
}

-- The type 1 is that of the logging, whose first object is null.
abbrev silenced : Registry
silenced = set_object 1 1 none new_registry

stays_silent : find_object 1 (set_object 1 1 (some 6) silenced) ≡ none
unfolding find_object set_object new_registry
stays_silent = refl

find_object-set_object_example : find_object 1 (set_object 1 1 (some 6) silenced) ≡ (
    if 1 == 1
    then (if 1 == 1 then elim (silenced.objects 1) [ none ↦ some 6 | some p ↦ p ] else some 6)
    else find_object 1 silenced)
find_object-set_object_example = find_object-set_object 1 1 1 (some 6) silenced

abbrev nothing : Global
nothing = record { registry_ptr = none; registry_unique = none; alive = λ _. false }

-- The default registry, which is replaced by another, and deleted by `cleanup`.
abbrev default : Global
default = (get 1 nothing).0

abbrev another : Global
another = record default { alive = λ k. if k == 2 then true else default.alive k }

abbrev cleaned : Global
cleaned = cleanup (set 2 another)

cleaned-Reach : Reach cleaned
unfolding get get_by
cleaned-Reach =
    next (set 2 another) cleaned
      (next another (set 2 another)
        (next default another (next nothing default (start nothing refl) (gets 1 default refl refl))
          (constructs 2 another refl refl))
        (sets 2 (set 2 another) refl refl))
      (cleans_up cleaned refl)

get-alive_example :
    ((get 3 cleaned).0.alive (get 3 cleaned).1 ≡ true) × (get 4 (get 3 cleaned).0 ≡ get 3 cleaned)
get-alive_example =
    get-alive 3 4 cleaned-Reach (unfold cleanup set get get_by delete destroy same_pointer in refl)
