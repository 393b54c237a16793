-- ===== src/Pagination/Laws.antt =====
-- How many pages there are.
use native.Mathlib.Nat.{div-add-mod', mod-lt, mul-le-mul_right, lt_of_mul-lt-mul_right}
use eu_saas.Prelude.{
  ltb→lt, ℕ, zero, suc, ◌+◌, ◌-◌, ◌*◌, ◌≤◌, ◌<◌, ◌≡◌, ◌↔◌, true, arith, nat_beq, Bool-cases, inl,
  inr,
}
use eu_saas.Pagination.{max_size, pagination_params, PaginatedResponse, pages, has_next}

-- Any page and size are brought into range.
pub pagination_params-bounds :
    (page size : ℕ)
    → (1 ≤ (pagination_params page size).page)
      × (1 ≤ (pagination_params page size).size)
      × ((pagination_params page size).size ≤ max_size)
unfolding pagination_params
pagination_params-bounds page size = ground arith

ceiling :
    (q m total size : ℕ)
    → q * size + m ≡ total + size - 1
    → m < size
    → 1 ≤ total
    → (total ≤ q * size) × (1 ≤ q) × ((q - 1) * size ≤ total - 1)
ceiling zero m total size split small some_there = absurd (omega (arith, split, small, some_there))
ceiling (suc p) m total size split small some_there =
    (grind (arith, split, small), omega arith, grind (arith, split, small, some_there))

module _ {T : Type 0} (r : PaginatedResponse T) (sized : 1 ≤ r.size) where
  -- For a size of at least 1, the pages hold all items, there is at least one, and one page less
  -- would not hold a positive number of items.
  pub pages-cover :
      (r.total ≤ pages r * r.size) × (1 ≤ pages r) × ((pages r - 1) * r.size ≤ r.total - 1)
  unfolding pages
  pages-cover = elim (Bool-cases (nat_beq r.total 0)) [
    | inl empty ↦ ground (arith, sized)
    | inr filled ↦ rw filled (
        ceiling _ _ r.total r.size (div-add-mod' (r.total + r.size - 1) r.size) (mod-lt _ sized)
          (ground arith))
  ]

  -- For a page and a size of at least 1, there is a next page exactly if there are items behind this
  -- one.
  pub has_next-items : 1 ≤ r.page → (has_next r ≡ true) ↔ (r.page * r.size < r.total)
  unfolding has_next
  has_next-items paged =
      let (all, some_page, last) = pages-cover in
      (
        λ h.
            let before : r.page ≤ pages r - 1 = omega (arith, ltb→lt r.page (pages r) h) in
            omega
              (arith, last, sized, mul-le-mul_right r.size paged, mul-le-mul_right r.size before),
        λ h.
            let before : r.page * r.size < pages r * r.size = omega (arith, all, h) in
            ground (arith, lt_of_mul-lt-mul_right r.size before),
      )
