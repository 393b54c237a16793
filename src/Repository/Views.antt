-- ===== src/Repository/Views.antt =====
-- A valid table as a function from primary keys to rows.
use mathlib.Core.Option
use eu_saas.Prelude.{
  subst, ◌≡◌, refl, Bool, true, false, Bool-cases, inl, inr, Option, none, some, List, [], ◌∷◌,
  filter, find, any, ◌==◌, nat_eq, if◌then◌else◌, arith,
}
use eu_saas.Domain.Values.{Uuid}
use eu_saas.Repository.Sql.{
  Answer, scalar_one_or_none, Row, has_id, conflict, is_valid, changed, delete_rows,
}

-- What `scalar_one_or_none` makes of a row or of none.
abbrev pub answer_of : {R : Type 0} → Option R → Answer R
answer_of none = Answer.nothing
answer_of (some r) = Answer.one r

module _ {R : Type 0} ⦃row : Row R⦄ where
  abbrev pub view : List R → Uuid → Option R
  view rows id = find (has_id id) rows

  -- A row that no row conflicts with has a new key.
  view_new :
      (r : R) (rows : List R) → any (conflict r) rows ≡ false → view rows (row.id_of r) ≡ none
  view_new r [] h = refl
  view_new r (q ∷ rows) h = ground (arith, h, view_new r rows)

  filter-none : (id : Uuid) (rows : List R) → view rows id ≡ none → filter (has_id id) rows ≡ []
  filter-none id [] h = refl
  filter-none id (q ∷ rows) h = ground (arith, h, filter-none id rows)

  -- On a valid table, a key has at most one row.
  pub scalar_one_or_none-view :
      (id : Uuid) (rows : List R)
      → is_valid rows ≡ true
      → scalar_one_or_none (filter (has_id id) rows) ≡ answer_of (view rows id)
  scalar_one_or_none-view id [] h = refl
  scalar_one_or_none-view id (q ∷ rows) h =
      let rest = scalar_one_or_none-view id rows (ground (arith, h)) in
      elim (Bool-cases (has_id id q)) [
        | inl here ↦
            let same : row.id_of q ≡ id = (nat_eq.equal_iff (row.id_of q) id).0 here in
            let alone : any (conflict q) rows ≡ false = ground (arith, h) in
            let none_left : view rows id ≡ none =
              subst (λ k. view rows k ≡ none) same (view_new q rows alone) in
            rw (here, filter-none id rows none_left) refl
        | inr elsewhere ↦ rw elsewhere rest
      ]

  pub view-changed :
      (id k : Uuid) (f : R → R) (rows : List R)
      → ((r : R) → row.id_of (f r) ≡ row.id_of r)
      → view (changed id f rows) k ≡ (if id == k then Option.map f (view rows k) else view rows k)
  view-changed id k f [] keeps = ground arith
  view-changed id k f (q ∷ rows) keeps = ground (arith, keeps q, view-changed id k f rows keeps)

  pub view-delete :
      (id k : Uuid) (rows : List R)
      → view (delete_rows id rows).1 k ≡ (if id == k then none else view rows k)
  unfolding delete_rows
  view-delete id k [] = ground arith
  view-delete id k (q ∷ rows) = ground (arith, view-delete id k rows)

  any_kept : (p q : R → Bool) (rows : List R) → any p rows ≡ false → any p (filter q rows) ≡ false
  any_kept p q [] h = refl
  any_kept p q (r ∷ rows) h = ground (arith, h, any_kept p q rows)

  pub is_valid-filter :
      (q : R → Bool) (rows : List R) → is_valid rows ≡ true → is_valid (filter q rows) ≡ true
  is_valid-filter q [] h = refl
  is_valid-filter q (r ∷ rows) h =
      ground (arith, h, any_kept (conflict r) q rows, is_valid-filter q rows)
