-- ===== src/Utility/SessionPool/Tests.antt =====
-- Runs of the session pool, and the theorems at concrete inputs.
use open_esl.Prelude.{◌≡◌, refl, true, false, none, some, [], ◌∷◌}
use open_esl.Utility.SessionPool.{
  Got, got, check_get_object, is_dirty, Config, Pool, init, assign, take_object, get,
  is_timeout_or_dirty, release, purge,
}
use open_esl.Utility.SessionPool.Calls.{
  Pointer, System, after_get, Reach, start, next, gets, Shared,
}
use open_esl.Utility.SessionPool.Sharing.{Reach-Shared}
use open_esl.Utility.SessionPool.Forgetting.{release-purge_forgets}

abbrev config : Config
config = record {
  objects_max = 2;
  object_lifetime = 100;
  reset_lifetime_on_get = false;
  reset_lifetime_on_release = true;
}

abbrev empty : System
empty = record { pool = init config; held = [] }

-- Two calls of `get` for the key 4.
abbrev one_pointer : System
one_pointer = after_get empty 4 (get empty.pool 4 0 0 10 (some 7))

abbrev two_pointers : System
two_pointers = after_get one_pointer 4 (get one_pointer.pool 4 0 0 20 (some 8))

abbrev shared : Pointer
shared = record { key = 4; object = 7 }

second_get_shares : two_pointers.held ≡ shared ∷ shared ∷ []
unfolding get init take_object check_get_object
second_get_shares = refl

two_pointers-Reach : Reach config two_pointers
two_pointers-Reach =
    next one_pointer two_pointers
      (next empty one_pointer (start empty refl) (gets 4 0 0 10 7 one_pointer refl))
      (gets 4 0 0 20 8 two_pointers refl)

Reach-Shared_example : Shared config two_pointers
Reach-Shared_example = Reach-Shared config two_pointers-Reach

abbrev in_use : Pool
in_use = record (init config) {
  objects =
      assign 4 (some (record { object = 7; circulating = 1; time_point_begin = 0 })) (λ _. none);
  objects_circulating = 1;
}

-- The second object for the key 4, whose session is not used after the first pointer is released.
abbrev second : Pool × Got
second = get (purge in_use 100) 4 0 0 105 (some 9)

release-purge_forgets_example :
    (release (purge in_use 100) 4 110 ≡ purge in_use 100)
    × ((purge in_use 100).objects_circulating ≡ 1)
    × (second.1 ≡ got 9)
    × ((release second.0 4 110).objects 4
        ≡ some (record { object = 9; circulating = 0; time_point_begin = 110 }))
    × ((release second.0 4 110).objects_circulating ≡ 1)
unfolding is_timeout_or_dirty init check_get_object is_dirty
release-purge_forgets_example =
    release-purge_forgets in_use 4 100
      (record { object = 7; circulating = 1; time_point_begin = 0 }) refl refl 0 0 105 9 110 refl
      refl refl
