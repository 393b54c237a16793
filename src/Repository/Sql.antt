-- ===== src/Repository/Sql.antt =====
-- What the repositories use of SQL.
use eu_saas.Prelude.{
  ℕ, Bool, true, not, ◌&&◌, ◌||◌, Option, none, some, List, [], ◌∷◌, filter, any, take, drop, ltb,
  ◌==◌, nat_eq, if◌then◌else◌,
}
use eu_saas.Domain.Values.{Uuid}

-- `scalar_one_or_none`
pub data Answer (R : Type 0) : Type 0 where
  nothing multiple_results : Answer R
  one : R → Answer R

abbrev pub scalar_one_or_none : {R : Type 0} → List R → Answer R
scalar_one_or_none [] = Answer.nothing
scalar_one_or_none (r ∷ []) = Answer.one r
scalar_one_or_none (r ∷ q ∷ rows) = Answer.multiple_results

-- The rows of a table: the primary key, and when two rows break a uniqueness constraint.
pub record Row (R : Type 0) : Type 0 where
  pub id_of : R → Uuid
  pub clash : R → R → Bool

-- `ORDER BY key DESC`
module _ {R : Type 0} where
  abbrev insert_desc : (R → ℕ) → R → List R → List R
  insert_desc key r [] = r ∷ []
  insert_desc key r (q ∷ rows) =
      let rest = insert_desc key r rows in if ltb (key r) (key q) then q ∷ rest else r ∷ q ∷ rows

  unfoldable pub order_by_desc : (R → ℕ) → List R → List R
  order_by_desc key [] = []
  order_by_desc key (r ∷ rows) = insert_desc key r (order_by_desc key rows)

  -- `OFFSET … LIMIT …`
  abbrev pub page : (offset limit : ℕ) → List R → List R
  page offset limit rows = take limit (drop offset rows)

module _ {R : Type 0} ⦃row : Row R⦄ where
  abbrev pub has_id : Uuid → R → Bool
  has_id id r = row.id_of r == id

  -- Two rows with the same primary key, or that break a constraint.
  abbrev pub conflict : R → R → Bool
  conflict r q = (row.id_of q == row.id_of r) || row.clash r q

  abbrev pub is_valid : List R → Bool
  is_valid [] = true
  is_valid (r ∷ rows) = not (any (conflict r) rows) && is_valid rows

  -- `INSERT`: `none` is an `IntegrityError`.
  unfoldable pub insert_row : R → List R → Option (List R)
  insert_row r rows = if any (conflict r) rows then none else some (r ∷ rows)

  abbrev pub changed : Uuid → (R → R) → List R → List R
  changed id f [] = []
  changed id f (r ∷ rows) =
      let rest = changed id f rows in if has_id id r then f r ∷ rest else r ∷ rest

  -- `UPDATE … WHERE id = … RETURNING …`: `none` is an `IntegrityError`.
  unfoldable pub update_rows : Uuid → (R → R) → List R → Option (List R × List R)
  update_rows id f rows =
      let rows' = changed id f rows in
      if is_valid rows' then some (filter (has_id id) rows', rows') else none

  -- `DELETE … WHERE id = …`, with `rowcount > 0`.
  unfoldable pub delete_rows : Uuid → List R → Bool × List R
  delete_rows id rows = (any (has_id id) rows, filter (λ r. not (has_id id r)) rows)
