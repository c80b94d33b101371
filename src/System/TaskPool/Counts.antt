-- ===== src/System/TaskPool/Counts.antt =====
-- How often a task is in a list, and where threads have it.
use open_esl.Prelude.{
  ℕ, suc, ◌+◌, ◌≤◌, ◌<◌, ◌≡◌, refl, ap, true, List, [], ◌∷◌, ◌++◌, arith, ◌==◌, if◌then◌else◌,
  length,
}
use open_esl.System.TaskPool.{
  outer, inner_max, inner_queue, fetching, waiting, exiting, Pc, inserting, starting, running, mem,
  erase_first, insert_key, erase_key,
}

abbrev pub one : ℕ → ℕ → ℕ
one a x = if x == a then 1 else 0

abbrev pub count : ℕ → List ℕ → ℕ
count a [] = 0
count a (x ∷ xs) = one a x + count a xs

-- Whether a thread has the task, and has not called its `run` yet.
abbrev pub holds : ℕ → Pc → ℕ
holds a (inserting x) = one a x
holds a (starting x) = one a x
holds a _ = 0

-- Whether a thread has called `run` of the task.
abbrev pub runs : ℕ → Pc → ℕ
runs a (running x) = one a x
runs a _ = 0

-- Whether the task is a key of `threadsProcessing` on behalf of the thread.
abbrev pub registers : ℕ → Pc → ℕ
registers a (starting x) = one a x
registers a (running x) = one a x
registers a _ = 0

abbrev pub sum : (Pc → ℕ) → List Pc → ℕ
sum f [] = 0
sum f (pc ∷ threads) = f pc + sum f threads

pub sum-middle :
    (f : Pc → ℕ) (before : List Pc) (pc : Pc) (behind : List Pc)
    → sum f (before ++ pc ∷ behind) ≡ f pc + sum f (before ++ behind)
sum-middle f [] pc behind = refl
sum-middle f (x ∷ before) pc behind = omega (arith, sum-middle f before pc behind)

pub sum-registers :
    (a : ℕ) (threads : List Pc)
    → sum (registers a) threads ≤ sum (holds a) threads + sum (runs a) threads
sum-registers a [] = omega arith
sum-registers a (inserting x ∷ threads) = omega (arith, sum-registers a threads)
sum-registers a (starting x ∷ threads) = omega (arith, sum-registers a threads)
sum-registers a (running x ∷ threads) = omega (arith, sum-registers a threads)
sum-registers a (outer ∷ threads) = omega (arith, sum-registers a threads)
sum-registers a (inner_max ∷ threads) = omega (arith, sum-registers a threads)
sum-registers a (inner_queue ∷ threads) = omega (arith, sum-registers a threads)
sum-registers a (fetching ∷ threads) = omega (arith, sum-registers a threads)
sum-registers a (waiting ∷ threads) = omega (arith, sum-registers a threads)
sum-registers a (exiting ∷ threads) = omega (arith, sum-registers a threads)

pub length-insert :
    (before : List Pc) (pc : Pc) (behind : List Pc)
    → length (before ++ pc ∷ behind) ≡ suc (length (before ++ behind))
length-insert [] pc behind = refl
length-insert (x ∷ before) pc behind = ap suc (length-insert before pc behind)

pub count-append :
    (a : ℕ) (before behind : List ℕ) → count a (before ++ behind) ≡ count a before + count a behind
count-append a [] behind = omega arith
count-append a (x ∷ before) behind = omega (arith, count-append a before behind)

pub count-erase_first :
    (a b : ℕ) (xs : List ℕ) → mem a xs ≡ true → count b xs ≡ count b (erase_first a xs) + one b a
unfolding mem erase_first
count-erase_first a b [] h = ground arith
count-erase_first a b (x ∷ xs) h = ground (arith, count-erase_first a b xs)

pub count-mem : (a : ℕ) (xs : List ℕ) → mem a xs ≡ true → 0 < count a xs
unfolding mem
count-mem a [] h = ground arith
count-mem a (x ∷ xs) h = ground (arith, count-mem a xs)

pub count-insert_key :
    (a b : ℕ) (xs : List ℕ) → count a xs ≡ 0 → count b (insert_key a xs) ≡ one b a + count b xs
unfolding insert_key
count-insert_key a b xs h = ground (arith, count-mem a xs)

pub count-erase_key :
    (a b : ℕ) (xs : List ℕ)
    → count a xs ≤ 1
    → count b xs ≡ count b (erase_key a xs) + (if a == b then count b xs else 0)
unfolding erase_key
count-erase_key a b [] h = ground arith
count-erase_key a b (x ∷ xs) h = ground (arith, count-erase_key a b xs)
