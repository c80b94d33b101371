-- ===== src/Plugin/Registry/Global.antt =====
-- `Registry::get`, `set`, `cleanup` and the destructor, and the pointers `registryPtr` and
-- `registryUnique`. A registry stands for its address. What the objects of a registry do while they
-- are destroyed is left out.
use open_esl.Prelude.{
  ℕ, ◌≡◌, refl, sym, ap, ◌∙◌, inl, inr, Bool, true, false, Option, none, some, arith, ◌==◌,
  if◌then◌else◌, ==-refl, Bool-cases, if_cases, if_true, if_false,
}
use open_esl.Plugin.Registry.{assign}

-- `alive` tells which registries are not destroyed.
pub record Global : Type 0 where
  pub registry_ptr : Option ℕ
  pub registry_unique : Option ℕ
  pub alive : ℕ → Bool

unfoldable pub same_pointer : Option ℕ → Option ℕ → Bool
same_pointer none none = true
same_pointer (some a) (some b) = a == b
same_pointer _ _ = false

-- `~Registry`
unfoldable pub destroy : ℕ → Global → Global
unfolding same_pointer
destroy x g = record g {
  registry_ptr = if same_pointer g.registry_ptr (some x) then none else g.registry_ptr;
  alive = assign x false g.alive;
}

-- The object of a `unique_ptr` is deleted.
unfoldable pub delete : Option ℕ → Global → Global
unfolding destroy
delete none g = g
delete (some x) g = destroy x g

-- `get` by the value of `registryPtr`, where `fresh` is the address of a new registry.
unfoldable pub get_by : ℕ → Global → Option ℕ → Global × ℕ
unfolding delete
get_by fresh g none = (
  record (delete g.registry_unique (record g { alive = assign fresh true g.alive })) {
    registry_unique = some fresh;
    registry_ptr = some fresh;
  },
  fresh,
)
get_by fresh g (some x) = (g, x)

unfoldable pub get : ℕ → Global → Global × ℕ
unfolding get_by
get fresh g = get_by fresh g g.registry_ptr

unfoldable pub set : ℕ → Global → Global
set x g = record g { registry_ptr = some x }

unfoldable pub cleanup : Global → Global
unfolding delete same_pointer
cleanup g =
    let ptr = if same_pointer g.registry_ptr g.registry_unique then none else g.registry_ptr in
    record (delete g.registry_unique (record g { registry_ptr = ptr })) { registry_unique = none }

-- A call, or the end of a registry that is not that of `registryUnique`. A new registry has an
-- address that none has which is alive; only a registry that is alive is set or destroyed.
pub data Step (g : Global) : Global → Type 0 where
  gets : (fresh : ℕ) (h : Global) → g.alive fresh ≡ false → h ≡ (get fresh g).0 → Step g h
  sets : (x : ℕ) (h : Global) → g.alive x ≡ true → h ≡ set x g → Step g h
  cleans_up : (h : Global) → h ≡ cleanup g → Step g h
  constructs :
      (x : ℕ) (h : Global)
      → g.alive x ≡ false
      → h ≡ record g { alive = assign x true g.alive }
      → Step g h
  destroys :
      (x : ℕ) (h : Global)
      → same_pointer g.registry_unique (some x) ≡ false
      → h ≡ destroy x g
      → Step g h

pub data Reach : Global → Type 0 where
  start :
      (g : Global)
      → g ≡ record { registry_ptr = none; registry_unique = none; alive = λ _. false }
      → Reach g
  next : (g h : Global) → Reach g → Step g h → Reach h

unfoldable pub points_to : Option ℕ → (ℕ → Bool) → Bool
points_to none alive = true
points_to (some x) alive = alive x

-- No pointer dangles.
pub record Inv (g : Global) : Type 0 where
  pub ptr : points_to g.registry_ptr g.alive ≡ true
  pub unique : points_to g.registry_unique g.alive ≡ true

init-Inv : Inv (record { registry_ptr = none; registry_unique = none; alive = λ _. false })
unfolding points_to
init-Inv = record { ptr = refl; unique = refl }

points_to-more :
    (p : Option ℕ) (x : ℕ) (alive : ℕ → Bool)
    → points_to p alive ≡ true
    → points_to p (assign x true alive) ≡ true
unfolding points_to
points_to-more none x alive h = refl
points_to-more (some y) x alive h =
    if_cases (λ b. b ≡ true) (y == x) true (alive y) (λ _. refl) (λ _. h)

points_to-less :
    (p : Option ℕ) (x : ℕ) (alive : ℕ → Bool)
    → points_to p alive ≡ true
    → same_pointer p (some x) ≡ false
    → points_to p (assign x false alive) ≡ true
unfolding points_to same_pointer
points_to-less none x alive h k = refl
points_to-less (some y) x alive h k = if_false (y == x) false (alive y) k ∙ h

destroy-Inv :
    (x : ℕ) (g : Global)
    → Inv g
    → same_pointer g.registry_unique (some x) ≡ false
    → Inv (destroy x g)
unfolding destroy
destroy-Inv x g v other = record {
  ptr =
      if_cases (λ p. points_to p (assign x false g.alive) ≡ true)
        (same_pointer g.registry_ptr (some x)) _ _ (λ _. unfold points_to in refl)
        (λ e. points_to-less g.registry_ptr x g.alive v.ptr e);
  unique = points_to-less g.registry_unique x g.alive v.unique other;
}

delete-ptr :
    (p : Option ℕ) (g : Global)
    → points_to g.registry_ptr g.alive ≡ true
    → points_to (delete p g).registry_ptr (delete p g).alive ≡ true
unfolding delete destroy
delete-ptr none g h = h
delete-ptr (some x) g h =
    if_cases (λ p. points_to p (assign x false g.alive) ≡ true)
      (same_pointer g.registry_ptr (some x)) _ _ (λ _. unfold points_to in refl)
      (λ e. points_to-less g.registry_ptr x g.alive h e)

delete-alive :
    (p : Option ℕ) (x : ℕ) (g : Global)
    → g.alive x ≡ true
    → same_pointer p (some x) ≡ false
    → (delete p g).alive x ≡ true
unfolding delete destroy same_pointer
delete-alive none x g h k = h
delete-alive (some y) x g h k =
    let other : (x == y) ≡ false = ground (arith, k) in
    if_false (x == y) false (g.alive x) other ∙ h

-- A registry that is not alive is not pointed to.
points_to-other :
    (p : Option ℕ) (x : ℕ) (alive : ℕ → Bool)
    → points_to p alive ≡ true
    → alive x ≡ false
    → same_pointer p (some x) ≡ false
unfolding points_to same_pointer
points_to-other none x alive h k = refl
points_to-other (some y) x alive h k = elim (Bool-cases (y == x)) [
  | inl e ↦ let same : y ≡ x = ground (arith, e) in absurd (ground (arith, h, k, ap alive same))
  | inr e ↦ e
]

get-Inv :
    (fresh : ℕ) (g : Global) (p : Option ℕ)
    → g.registry_ptr ≡ p
    → g.alive fresh ≡ false
    → Inv g
    → Inv (get_by fresh g p).0
unfolding get_by
get-Inv fresh g none e free v =
    let born = record g { alive = assign fresh true g.alive } in
    let living : (delete g.registry_unique born).alive fresh ≡ true =
      delete-alive g.registry_unique fresh born
        (if_true (fresh == fresh) true (g.alive fresh) (==-refl fresh))
        (points_to-other g.registry_unique fresh g.alive v.unique free) in
    record { ptr = unfold points_to in living; unique = unfold points_to in living }
get-Inv fresh g (some x) e free v = v

cleanup-Inv : (g : Global) → Inv g → Inv (cleanup g)
unfolding cleanup
cleanup-Inv g v =
    let forgotten = record g {
      registry_ptr = if same_pointer g.registry_ptr g.registry_unique then none else g.registry_ptr;
    } in
    record {
      ptr = delete-ptr g.registry_unique forgotten (
          if_cases (λ p. points_to p g.alive ≡ true) (same_pointer g.registry_ptr g.registry_unique)
            _ _ (λ _. unfold points_to in refl) (λ _. v.ptr));
      unique = unfold points_to in refl;
    }

Step-Inv : {g h : Global} → Step g h → Inv g → Inv h
Step-Inv {g} (gets fresh h free e) v =
    rw e (unfold get in get-Inv fresh g g.registry_ptr refl free v)
Step-Inv {g} (sets x h living e) v =
    rw e (unfold set in record { ptr = unfold points_to in living; unique = v.unique })
Step-Inv {g} (cleans_up h e) v = rw e (cleanup-Inv g v)
Step-Inv {g} (constructs x h free e) v = rw e (record {
  ptr = points_to-more g.registry_ptr x g.alive v.ptr;
  unique = points_to-more g.registry_unique x g.alive v.unique;
})
Step-Inv {g} (destroys x h other e) v = rw e (destroy-Inv x g v other)

-- No pointer dangles in a state that is reached.
living : {g : Global} → Reach g → Inv g
living (start g e) = rw e init-Inv
living (next g h r st) = Step-Inv st (living r)

get_by-alive :
    (fresh other : ℕ) (g : Global) (p : Option ℕ)
    → g.registry_ptr ≡ p
    → g.alive fresh ≡ false
    → Inv g
    → ((get_by fresh g p).0.alive (get_by fresh g p).1 ≡ true)
      × (get other (get_by fresh g p).0 ≡ get_by fresh g p)
unfolding get_by get points_to
get_by-alive fresh other g none e free v = ((get-Inv fresh g none e free v).ptr, refl)
get_by-alive fresh other g (some x) e free v =
    (ap (λ q. points_to q g.alive) (sym e) ∙ v.ptr, ap (get_by other g) e)

-- In every state that the calls of `get`, `set` and `cleanup` and the end of other registries lead
-- to, `get` returns a registry that is alive, and calling it again returns the same one.
pub get-alive :
    {g : Global} (fresh other : ℕ)
    → Reach g
    → g.alive fresh ≡ false
    → ((get fresh g).0.alive (get fresh g).1 ≡ true) × (get other (get fresh g).0 ≡ get fresh g)
get-alive {g} fresh other r free =
    unfold get in get_by-alive fresh other g g.registry_ptr refl free (living r)
