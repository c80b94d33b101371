-- ===== src/Database/ResultSet/Outcomes.antt =====
-- What `save` and `next` come to, by what the calls of the binding leave.
use open_esl.Prelude.{ℕ, ◌≡◌, refl, ap, ap₂, ◌∙◌, true, false, Option, none, some, if◌then◌else◌}
use open_esl.Database.ResultSet.{
  Called, Binding, Error, of_binding, ResultSet, called, save_called, save, fetch_called, fetch,
  after_save, next,
}

module _ {D V : Type 0} (b : Binding D V) where
  abbrev Row : Type 0
  Row = ResultSet D V

  -- What `save` comes to, by what `save` of the binding left: its fields and its state are taken
  -- over, and the change is forgotten unless it threw.
  abbrev pub saved : Called D V → Row × Option Error
  saved s = elim s.thrown as (λ _. Row × Option Error) [
    | some e ↦ (
      record {
        binding = some s.driver;
        fields = s.fields;
        values_changed = true;
        fetching = false;
      },
      some (of_binding e),
    )
    | none ↦ (
      record {
        binding = some s.driver;
        fields = s.fields;
        values_changed = false;
        fetching = false;
      },
      none,
    )
  ]

  -- What `next` comes to after that: nothing is fetched if `save` of the binding threw; else `fetch`
  -- of the binding gets the fields that it left.
  abbrev pub saved_and_fetched : Called D V → Row × Option Error
  saved_and_fetched s =
      let (f, found) = b.fetch s.driver s.fields in
      elim s.thrown as (λ _. Row × Option Error) [
        | some e ↦ (
          record {
            binding = some s.driver;
            fields = s.fields;
            values_changed = true;
            fetching = false;
          },
          some (of_binding e),
        )
        | none ↦ elim f.thrown as (λ _. Row × Option Error) [
          | some e ↦ (
            record {
              binding = some f.driver;
              fields = f.fields;
              values_changed = false;
              fetching = true;
            },
            some (of_binding e),
          )
          | none ↦ (
            record {
              binding = if found then some f.driver else none;
              fields = f.fields;
              values_changed = false;
              fetching = false;
            },
            none,
          )
        ]
      ]

  pub save_changed :
      (r : Row) {d : D}
      → r.binding ≡ some d
      → r.fetching ≡ false
      → save b (record r { values_changed = true }) ≡ saved (b.save d r.fields)
  unfolding save save_called called
  save_changed r {d} h free =
      ap₂ (λ x busy. save b (record r { binding = x; values_changed = true; fetching = busy })) h
        free

  after_save-elim :
      (x y : Row) (thrown : Option ℕ)
      → after_save b (fetch b) (elim thrown as (λ _. Row × Option Error) [
        | none ↦ (x, none)
        | some e ↦ (y, some (of_binding e))
      ])
        ≡ (elim thrown as (λ _. Row × Option Error) [
          | none ↦ fetch b x
          | some e ↦ (y, some (of_binding e))
        ])
  unfolding after_save
  after_save-elim x y none = refl
  after_save-elim x y (some e) = refl

  pub next_changed :
      (r : Row) {d : D}
      → r.binding ≡ some d
      → r.fetching ≡ false
      → next b (record r { values_changed = true }) ≡ saved_and_fetched (b.save d r.fields)
  unfolding next save save_called fetch fetch_called called
  next_changed r {d} h free =
      let s : Called D V = b.save d r.fields in
      ap₂ (λ x busy. next b (record r { binding = x; values_changed = true; fetching = busy })) h
        free
      ∙ after_save-elim
          (record {
            binding = some s.driver;
            fields = s.fields;
            values_changed = false;
            fetching = false;
          })
          (record {
            binding = some s.driver;
            fields = s.fields;
            values_changed = true;
            fetching = false;
          })
          s.thrown

  pub next_thrown :
      (r : Row) {d : D} (e : ℕ)
      → r.binding ≡ some d
      → r.values_changed ≡ false
      → (b.fetch d r.fields).0.thrown ≡ some e
      → next b r ≡ (
        record {
          binding = some (b.fetch d r.fields).0.driver;
          fields = (b.fetch d r.fields).0.fields;
          values_changed = false;
          fetching = true;
        },
        some (of_binding e),
      )
  unfolding next save after_save fetch fetch_called called
  next_thrown r {d} e h unchanged thrown =
      let c : Called D V = (b.fetch d r.fields).0 in
      let stuck : Row = record {
        binding = some c.driver;
        fields = c.fields;
        values_changed = false;
        fetching = true;
      } in
      let found : Row = record {
        binding = if (b.fetch d r.fields).1 then some c.driver else none;
        fields = c.fields;
        values_changed = false;
        fetching = false;
      } in
      ap₂ (λ x u. next b (record r { binding = x; values_changed = u })) h unchanged
      ∙ ap
          (λ t. elim t as (λ _. Row × Option Error) [
            | none ↦ (found, none)
            | some x ↦ (stuck, some (of_binding x))
          ])
          thrown
