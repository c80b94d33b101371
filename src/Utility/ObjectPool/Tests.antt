-- ===== src/Utility/ObjectPool/Tests.antt =====
-- Runs of the object pool, and the theorems at concrete inputs.
use open_esl.Prelude.{◌+◌, ◌≤◌, ◌<◌, ◌≡◌, refl, ◌⊎◌, true, false, none, [], ◌∷◌, arith, All}
use open_esl.Utility.ObjectPool.{
  lifo, fifo, Pooled, Config, Pool, init, waits, null, get, purge, timeout_handler_wakeup,
}
use open_esl.Utility.ObjectPool.Circulation.{
  System, after_get, Reach, start, next, gets, Inv, Reach-Inv, get-waits_after_failures,
}
use open_esl.Utility.ObjectPool.Lifetime.{
  IsExpired, Any, Drops, purge-Drops, timeout_handler_wakeup_lem,
}

abbrev config : Config
config = record {
  objects_max = 1;
  object_lifetime = 100;
  reset_lifetime_on_get = false;
  reset_lifetime_on_release = true;
}

-- One object is outside, two are in the pool.
abbrev pool : Pool
pool = record {
  config = record config { objects_max = 0 };
  objects =
      (record { object = 7; time_point_begin = 0 })
      ∷ (record { object = 8; time_point_begin = 60 })
      ∷ [];
  objects_circulating = 1;
  destructor_called = false;
}

abbrev outside : Pooled
outside = record { object = 9; time_point_begin = 50 }

-- With a time limit of 0, `get` waits for as long as it takes.
get_waits :
    get (record (init config) { objects_circulating = 1 }) 0 1000 fifo 5 none
    ≡ (record (init config) { objects_circulating = 1 }, waits)
unfolding get init
get_waits = refl

get_times_out :
    get (record (init config) { objects_circulating = 1 }) 10 10 fifo 5 none
    ≡ (record (init config) { objects_circulating = 1 }, null)
unfolding get init
get_times_out = refl

purge-Drops_example :
    Drops (IsExpired pool 120) pool.objects (purge pool 120).objects
    × All (λ x. ¬ IsExpired pool 120 x) (purge pool 120).objects
purge-Drops_example = purge-Drops pool 120 refl

wakeup_runs : timeout_handler_wakeup pool 70 ≡ 30
unfolding timeout_handler_wakeup
wakeup_runs = refl

timeout_handler_wakeup_lem_example :
    ((timeout_handler_wakeup pool 70 ≡ 0)
      ⊎ Any
          (λ x. 70 + timeout_handler_wakeup pool 70 ≡ x.time_point_begin + pool.object_lifetime)
          pool.objects)
    × All
        (λ x.
          (x.time_point_begin + pool.object_lifetime ≤ 70)
          ⊎ ((0 < timeout_handler_wakeup pool 70)
              × (70 + timeout_handler_wakeup pool 70 ≤ x.time_point_begin + pool.object_lifetime)))
        pool.objects
timeout_handler_wakeup_lem_example = timeout_handler_wakeup_lem pool 70

abbrev fresh : System
fresh = record {
  pool = record {
    config = config;
    objects = [];
    objects_circulating = 0;
    destructor_called = false;
  };
  held = [];
  failures = 0;
}

-- `createObject` has thrown once.
abbrev failed : System
failed = record fresh { pool = record fresh.pool { objects_circulating = 1 }; failures = 1 }

failed-Reach : Reach config failed
failed-Reach =
    next fresh failed (start fresh first) (gets 0 0 fifo 0 none failed (λ a e. cc) second)
  where
    first : fresh ≡ record { pool = init config; held = []; failures = 0 }
    first = unfold init in refl

    second : failed ≡ after_get fresh (get fresh.pool 0 0 fifo 0 none)
    second = unfold get in refl

Reach-Inv_example : Inv config failed
Reach-Inv_example = Reach-Inv config failed-Reach

get-waits_after_failures_example :
    (failed.held ≡ []) × (get failed.pool 0 9 lifo 9 none ≡ (failed.pool, waits))
get-waits_after_failures_example =
    get-waits_after_failures config 9 lifo 9 none failed-Reach (omega arith) refl refl
