-- ===== src/System/TaskPool.antt =====
-- `TaskFactory` and `TaskThread` of features/common4esl/src/common4esl/system/TaskFactory.cpp and
-- TaskThread.cpp, with what `TaskBinding::cancel` of TaskBinding.cpp does to the queue. A task is
-- the number of its binding. Each value of `Pc` is a place where a thread gives up a mutex or reads
-- shared state; between two places it runs on its own.
mod Counts
mod Moves
mod Places
pub mod Invariant
pub mod Starving
mod Tests
use open_esl.Prelude.{
  ℕ, suc, ◌+◌, ◌-◌, ◌<◌, ◌≡◌, refl, ◌⊎◌, Bool, true, false, not, ◌||◌, List, [], ◌∷◌, ◌++◌, ltb,
  ◌==◌, if◌then◌else◌, is_empty,
}

-- The members of `TaskFactory`.
pub record Pool : Type 0 where
  pub threads_max : ℕ
  pub threads_available : ℕ
  pub queue : List ℕ
  pub threads_processing : List ℕ

-- Where a `TaskThread` is: before the test of the outer `while`, before the two tests of the inner
-- one, before the fetch, with a binding before it is inserted, before `run`, in `run`, in
-- `wait_for`, and before the body of the destructor.
pub data Pc : Type 0 where
  outer inner_max inner_queue fetching waiting exiting : Pc
  inserting starting running : ℕ → Pc

unfoldable pub mem : ℕ → List ℕ → Bool
mem a [] = false
mem a (x ∷ xs) = x == a || mem a xs

-- `erase(iter)` for the first entry that is `a`.
unfoldable pub erase_first : ℕ → List ℕ → List ℕ
erase_first a [] = []
erase_first a (x ∷ xs) = let rest = erase_first a xs in if x == a then xs else x ∷ rest

-- `std::map::insert` and `std::map::erase`, on the keys.
unfoldable pub insert_key : ℕ → List ℕ → List ℕ
unfolding mem
insert_key a xs = if mem a xs then xs else a ∷ xs

unfoldable pub erase_key : ℕ → List ℕ → List ℕ
erase_key a [] = []
erase_key a (x ∷ xs) = let rest = erase_key a xs in if x == a then rest else x ∷ rest

unfoldable pub fetch : Pool → List ℕ → Pool × Pc
fetch p [] = (p, waiting)
fetch p (a ∷ queue) = (record p { queue = queue }, inserting a)

-- The constructor of `TaskThread` from one place to the next. `timed_out` is that `threadTimeout`
-- has passed when the predicate of `wait_for` is tested.
unfoldable pub advance : Bool → Pool → Pc → Pool × Pc
unfolding fetch insert_key erase_key
advance timed_out p outer = (p, if p.threads_max == 0 then exiting else inner_max)
advance timed_out p inner_max = (p, if p.threads_max == 0 then waiting else inner_queue)
advance timed_out p inner_queue = (p, if is_empty p.queue then waiting else fetching)
advance timed_out p fetching = fetch p p.queue
advance timed_out p (inserting a) =
    (record p { threads_processing = insert_key a p.threads_processing }, starting a)
advance timed_out p (starting a) = (p, running a)
advance timed_out p (running a) =
    (record p { threads_processing = erase_key a p.threads_processing }, inner_max)
advance timed_out p waiting = (
  p,
  if p.threads_max == 0 || not (is_empty p.queue)
      then outer
      else if timed_out
      then exiting
      else waiting,
)
advance timed_out p exiting = (p, exiting)

-- Whether a thread locks `queueMutex` there.
unfoldable pub locks_queue : Pc → Bool
locks_queue inner_queue = true
locks_queue fetching = true
locks_queue _ = false

-- The pool with its threads, how many tasks it has created and how many calls of `createTask` are
-- between their two blocks, the tasks whose `run` was called, those that were canceled, and whether
-- a call of `cancel` holds `queueMutex` for good.
pub record System : Type 0 where
  pub pool : Pool
  pub threads : List Pc
  pub next : ℕ
  pub creators : ℕ
  pub started : List ℕ
  pub canceled : List ℕ
  pub stuck : Bool

unfoldable pub init : ℕ → System
init threads_max = record {
  pool = record {
    threads_max = threads_max;
    threads_available = 0;
    queue = [];
    threads_processing = [];
  };
  threads = [];
  next = 0;
  creators = 0;
  started = [];
  canceled = [];
  stuck = false;
}

-- The first block of `createTask`.
unfoldable pub push_task : System → System
push_task s = record s {
  pool = record s.pool { queue = s.pool.queue ++ s.next ∷ [] };
  next = suc s.next;
  creators = suc s.creators;
}

-- `TaskThread::create`, where the constructor of `std::thread` does not throw.
unfoldable pub create_thread : System → System
create_thread s = record s {
  pool = record s.pool { threads_available = s.pool.threads_available + 1 };
  threads = outer ∷ s.threads;
}

-- The second block of `createTask`, which is one of `creators`.
unfoldable pub offer_thread : System → System
unfolding create_thread
offer_thread s =
    let counted = record s { creators = s.creators - 1 } in
    if ltb s.pool.threads_available s.pool.threads_max then create_thread counted else counted

-- `TaskBinding::cancel` of a task whose factory is not gone: `setStatus` never returns for one that
-- is in the queue.
unfoldable pub cancel_task : ℕ → System → System
unfolding mem erase_first
cancel_task a s =
    if mem a s.pool.queue
    then record s {
      pool = record s.pool { queue = erase_first a s.pool.queue };
      canceled = a ∷ s.canceled;
      stuck = true;
    }
    else s

-- The first block of `~TaskFactory`.
unfoldable pub shut_down : System → System
shut_down s = record s {
  pool = record s.pool { threads_max = 0; queue = [] };
  canceled = s.pool.queue ++ s.canceled;
}

-- The tasks that `getTasks` returns.
unfoldable pub get_tasks : System → List ℕ
get_tasks s = s.pool.queue ++ s.pool.threads_processing

-- What a thread calls `run` for there.
abbrev pub starts : Pc → List ℕ
starts (starting a) = a ∷ []
starts _ = []

-- One thread goes on, where `before` and `behind` are the other threads.
abbrev pub after_advance : System → List Pc → Pc → List Pc → Pool × Pc → System
after_advance s before pc behind (p, next_pc) = record s {
  pool = p;
  threads = before ++ next_pc ∷ behind;
  started = starts pc ++ s.started;
}

-- `~TaskThread`
abbrev pub after_exit : System → List Pc → List Pc → System
after_exit s before behind = record s {
  pool = record s.pool { threads_available = s.pool.threads_available - 1 };
  threads = before ++ behind;
}

-- One block of a call, or one move of a thread.
pub data Step (s : System) : System → Type 0 where
  pushes : (t : System) → s.stuck ≡ false → t ≡ push_task s → Step s t
  offers : (t : System) → 0 < s.creators → t ≡ offer_thread s → Step s t
  cancels : (a : ℕ) (t : System) → s.stuck ≡ false → t ≡ cancel_task a s → Step s t
  shuts_down : (t : System) → s.stuck ≡ false → t ≡ shut_down s → Step s t
  advances :
      (timed_out : Bool) (before : List Pc) (pc : Pc) (behind : List Pc) (t : System)
      → s.threads ≡ before ++ pc ∷ behind
      → (s.stuck ≡ false) ⊎ (locks_queue pc ≡ false)
      → t ≡ after_advance s before pc behind (advance timed_out s.pool pc)
      → Step s t
  exits :
      (before behind : List Pc) (t : System)
      → s.threads ≡ before ++ exiting ∷ behind
      → t ≡ after_exit s before behind
      → Step s t

-- What comes after `s`.
pub data Later (s : System) : System → Type 0 where
  here : (t : System) → t ≡ s → Later s t
  next_step : (t u : System) → Later s t → Step t u → Later s u
