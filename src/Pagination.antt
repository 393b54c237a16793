-- ===== src/Pagination.antt =====
-- src/application/schemas/pagination.py. A page or size below 0 is read as 0: both are raised to 1.
pub mod Laws
use Prim.Native.Nat.{min, max}
use eu_saas.Prelude.{ℕ, ◌+◌, ◌-◌, ◌*◌, ◌/◌, Bool, true, List, nat_beq, ltb, if◌then◌else◌}

abbrev pub max_size : ℕ
max_size = 100

pub record PaginationParams : Type 0 where
  pub page : ℕ
  pub size : ℕ

-- The constructor with its `__post_init__`.
unfoldable pub pagination_params : ℕ → ℕ → PaginationParams
pagination_params page size = record { page = max 1 page; size = max 1 (min size max_size) }

unfoldable pub offset : PaginationParams → ℕ
offset p = (p.page - 1) * p.size

pub record PaginatedResponse (T : Type 0) : Type 0 where
  pub items : List T
  pub total : ℕ
  pub page : ℕ
  pub size : ℕ

-- `math.ceil(total / size)`, exact for the totals below 2^52 that a float quotient represents.
unfoldable pub pages : {T : Type 0} → PaginatedResponse T → ℕ
pages r = if nat_beq r.total 0 then 1 else (r.total + r.size - 1) / r.size

unfoldable pub has_next : {T : Type 0} → PaginatedResponse T → Bool
unfolding pages
has_next r = ltb r.page (pages r)

unfoldable pub has_previous : {T : Type 0} → PaginatedResponse T → Bool
has_previous r = ltb 1 r.page
