-- ===== src/Database/ResultSet/Edits.antt =====
-- What becomes of a change of a field.
use open_esl.Prelude.{ℕ, ◌≡◌, ap, ◌∙◌, true, false, Option, none, some, if_false}
use open_esl.Database.Conversion.{DoubleOps, Value}
use open_esl.Database.Field.{Field, Changed}
use open_esl.Database.ResultSet.{
  Binding, Error, cannot_edit, of_binding, ResultSet, set_field, save, next,
}
use open_esl.Database.ResultSet.Fields.{edit}
use open_esl.Database.ResultSet.Assignments.{
  Assigns, edited, edit-accepted, edit-refused, edit-fetching,
}
use open_esl.Database.ResultSet.Outcomes.{
  saved, saved_and_fetched, save_changed, next_changed, next_thrown,
}

module _ {X D : Type 0} ⦃o : DoubleOps X⦄ (b : Binding D (Field X)) where
  abbrev Row : Type 0
  Row = ResultSet D (Field X)

  -- While a result set has a row and does not fetch, an assignment to a field that may be edited, of
  -- a value that the field accepts and did not hold, is saved before the next row is fetched: `next`
  -- passes the edited fields to `save` of the binding. If that throws, `next` throws the same and
  -- fetches nothing, and the change waits for another `save`; otherwise `fetch` gets the fields that
  -- `save` left. If `fetch` throws, so does `next`; if not, nothing is left to be saved, and the
  -- result set is at its end if no row was found.
  pub edit-next :
      (i : ℕ) (v : Value X) (r : Row) (c : Changed X) {d : D}
      → r.binding ≡ some d
      → r.fetching ≡ false
      → Assigns i v r c
      → c.notified ≡ true
      → b.is_editable d i ≡ true
      → next b (edit b i v r).0 ≡ saved_and_fetched b (b.save d (set_field i c.field r.fields))
  edit-next i v r c h free a told k =
      ap (λ (p : Row × Option Error). next b p.0) (edit-accepted b i v r c h free a told k)
      ∙ next_changed b (edited i c r) h free

  -- While a result set has a row and does not fetch, an assignment to a field that may not be edited,
  -- of a value that the field accepts and did not hold, throws, but the field is changed all the
  -- same: after the next such assignment, to a field that may be edited, `save` passes the refused
  -- value to the binding as well.
  pub edit-refused_is_saved :
      (i j : ℕ) (v w : Value X) (r : Row) (c e : Changed X) {d : D}
      → r.binding ≡ some d
      → r.fetching ≡ false
      → Assigns i v r c
      → c.notified ≡ true
      → b.is_editable d i ≡ false
      → Assigns j w (edited i c r) e
      → e.notified ≡ true
      → b.is_editable d j ≡ true
      → (edit b i v r ≡ (edited i c r, some cannot_edit))
        × (save b (edit b j w (edit b i v r).0).0
            ≡ saved b (b.save d (set_field j e.field (set_field i c.field r.fields))))
  edit-refused_is_saved i j v w r c e h free a told k a' told' l =
      let refused = edit-refused b i v r c h free a told k in
      (
        refused,
        ap (λ (p : Row × Option Error). save b (edit b j w p.0).0) refused
            ∙ ap (λ (p : Row × Option Error). save b p.0)
                (edit-accepted b j w (edited i c r) e h free a' told' l)
            ∙ save_changed b (edited j e (edited i c r)) h free,
      )

  -- If nothing waits to be saved and `fetch` of the binding throws, `next` throws the same, and the
  -- result set takes itself to be fetching after that: an assignment to one of its fields that accepts
  -- the value does not throw, whether the field may be edited or not, and `save` does not pass the
  -- change on.
  pub next-throws_loses_edits :
      (i : ℕ) (v : Value X) (r : Row) (c : Changed X) {d : D} (e : ℕ)
      → r.binding ≡ some d
      → r.values_changed ≡ false
      → (b.fetch d r.fields).0.thrown ≡ some e
      → Assigns i v (next b r).0 c
      → ((next b r).1 ≡ some (of_binding e))
        × (edit b i v (next b r).0 ≡ (edited i c (next b r).0, none))
        × (save b (edit b i v (next b r).0).0 ≡ (edited i c (next b r).0, none))
  unfolding save
  next-throws_loses_edits i v r c {d} e h unchanged thrown a =
      let failed = next_thrown b r e h unchanged thrown in
      let left = ap (λ (p : Row × Option Error). p.0) failed in
      let changed =
        edit-fetching b i v (next b r).0 c (ap (λ (x : Row). x.binding) left)
          (ap (λ (x : Row). x.fetching) left) a in
      (
        ap (λ (p : Row × Option Error). p.1) failed,
        changed,
        ap (λ (p : Row × Option Error). save b p.0) changed
            ∙ if_false (next b r).0.values_changed _ _ (ap (λ (x : Row). x.values_changed) left),
      )
