-- ===== src/Utility/SessionPool/Calls.antt =====
-- The calls of the pool with the pointers that they give out, and what they keep.
use open_esl.Prelude.{
  ℕ, suc, ◌+◌, ◌≤◌, ◌≡◌, refl, ap, subst, ◌⊎◌, false, ◌&&◌, Option, none, some, List, [], ◌∷◌, ◌++◌,
  arith, ◌==◌, if◌then◌else◌, if_cases, length,
}
use open_esl.Utility.SessionPool.{
  StoredObject, Config, Pool, init, assign, Got, waits, null, got, throws, get, release, unexpired,
  purge, destroy,
}

-- A pointer that `get` has returned.
pub record Pointer : Type 0 where
  pub key : ℕ
  pub object : ℕ

-- The pool, and the pointers that the callers of `get` hold.
pub record System : Type 0 where
  pub pool : Pool
  pub held : List Pointer

-- What a call of `get` leaves with its caller.
abbrev pub after_get : System → ℕ → Pool × Got → System
after_get s key (p, waits) = record s { pool = p }
after_get s key (p, null) = record s { pool = p }
after_get s key (p, got object) = record {
  pool = p;
  held = (record { key = key; object = object }) ∷ s.held;
}
after_get s key (p, throws) = record s { pool = p }

-- How many pointers have the key and the object.
abbrev pub count : ℕ → ℕ → List Pointer → ℕ
count k o [] = 0
count k o (x ∷ xs) = (if x.key == k && x.object == o then 1 else 0) + count k o xs

-- How often the session says that its object circulates, if `o` is its object.
abbrev pub uses : ℕ → Option StoredObject → ℕ
uses o none = 0
uses o (some x) = if x.object == o then x.circulating else 0

-- One call, or one round of the timeout thread. `createObject` returns an object, and only what is
-- held is released. A round finds no session that it drops although it circulates.
pub data Step (s : System) : System → Type 0 where
  gets :
      (key timeout elapsed now created : ℕ) (t : System)
      → t ≡ after_get s key (get s.pool key timeout elapsed now (some created))
      → Step s t
  releases :
      (before : List Pointer) (x : Pointer) (behind : List Pointer) (now : ℕ) (t : System)
      → s.held ≡ before ++ x ∷ behind
      → t ≡ record { pool = release s.pool x.key now; held = before ++ behind }
      → Step s t
  purges :
      (now : ℕ) (t : System)
      → ((k o : ℕ) → uses o (unexpired s.pool now (s.pool.objects k)) ≡ uses o (s.pool.objects k))
      → t ≡ record s { pool = purge s.pool now }
      → Step s t
  destroys : (t : System) → t ≡ record s { pool = destroy s.pool } → Step s t

pub data Reach (c : Config) : System → Type 0 where
  start : (s : System) → s ≡ record { pool = init c; held = [] } → Reach c s
  next : (s t : System) → Reach c s → Step s t → Reach c t

-- Each session counts the pointers to it, the pool counts all pointers, and the limit is respected.
pub record Shared (c : Config) (s : System) : Type 0 where
  pub same_config : s.pool.config ≡ c
  pub counted : (k o : ℕ) → count k o s.held ≡ uses o (s.pool.objects k)
  pub total : s.pool.objects_circulating ≡ length s.held
  pub bounded : (c.objects_max ≡ 0) ⊎ (s.pool.objects_circulating ≤ c.objects_max)

pub count-append :
    (k o : ℕ) (before behind : List Pointer)
    → count k o (before ++ behind) ≡ count k o before + count k o behind
count-append k o [] behind = omega arith
count-append k o (x ∷ before) behind = omega (arith, count-append k o before behind)

pub length-middle :
    (xs : List Pointer) (x : Pointer) (ys : List Pointer)
    → length (xs ++ x ∷ ys) ≡ suc (length (xs ++ ys))
length-middle [] x ys = refl
length-middle (z ∷ xs) x ys = ap suc (length-middle xs x ys)

-- What holds of the value for the key and of each other entry holds of each entry.
pub assign-All :
    (P : ℕ → Option StoredObject → Type 0) (key : ℕ) (x : Option StoredObject)
    (objects : ℕ → Option StoredObject)
    → P key x
    → ((k : ℕ) → (k == key) ≡ false → P k (objects k))
    → (k : ℕ) → P k (assign key x objects k)
assign-All P key x objects h others k =
    if_cases (P k) (k == key) x (objects k) (λ e. subst (λ j. P j x) (ground (arith, e)) h)
      (others k)
