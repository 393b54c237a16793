-- ===== src/Services/Tenants/Listing.antt =====
-- Reading a list of tenants page by page.
use Prim.Native.Nat.{max}
use native.Mathlib.Nat.{suc-mul}
use eu_saas.Prelude.{
  ℕ, zero, suc, ◌+◌, ◌-◌, ◌*◌, ◌≤◌, ◌≡◌, refl, sym, ap, ◌∙◌, Option, List, [], ◌∷◌, ◌++◌, take,
  drop, length, values, arith,
}
use eu_saas.Domain.Tenant.{Tenant, TenantStatus}
use eu_saas.Adapters.Tenants as Repo
use eu_saas.Adapters.Tenants.{matching}
use eu_saas.Container.{ok_inj, Result, ok, err, Container, running}
use eu_saas.Pagination.{PaginatedResponse, pagination_params, offset, pages}
use eu_saas.Pagination.Laws.{pages-cover, pagination_params-bounds}
use eu_saas.Services.Tenants.{list_tenants}

module _ {A : Type 0} where
  drop-nil : (n : ℕ) → drop {A = A} n [] ≡ []
  drop-nil zero = refl
  drop-nil (suc n) = refl

  drop-drop : (m n : ℕ) (xs : List A) → drop n (drop m xs) ≡ drop (m + n) xs
  drop-drop zero n xs = ap (λ k. drop k xs) (omega arith)
  drop-drop (suc m) n [] = drop-nil n ∙ sym (drop-nil (suc m + n))
  drop-drop (suc m) n (x ∷ xs) =
      let e : suc (m + n) ≡ suc m + n = omega arith in
      drop-drop m n xs ∙ ap (λ k. drop k (x ∷ xs)) e

  take-nil : (n : ℕ) → take {A = A} n [] ≡ []
  take-nil zero = refl
  take-nil (suc n) = refl

  take_add : (m n : ℕ) (xs : List A) → take (m + n) xs ≡ take m xs ++ take n (drop m xs)
  take_add zero n xs = ap (λ k. take k xs) (omega arith)
  take_add (suc m) n [] = take-nil (suc m + n) ∙ sym (take-nil n)
  take_add (suc m) n (x ∷ xs) =
      let e : suc m + n ≡ suc (m + n) = omega arith in
      ap (λ k. take k (x ∷ xs)) e ∙ ap (λ l. x ∷ l) (take_add m n xs)

  take_all : (n : ℕ) (xs : List A) → length xs ≤ n → take n xs ≡ xs
  take_all zero [] h = refl
  take_all zero (x ∷ xs) h = ground arith
  take_all (suc n) [] h = refl
  take_all (suc n) (x ∷ xs) h = ap (λ l. x ∷ l) (take_all n xs (omega (arith, h)))

abbrev items_of : Result (PaginatedResponse Tenant) → List Tenant
items_of (ok response) = response.items
items_of (err e) = []

-- The items of `n` pages from page `k` on, one request after the other.
abbrev pub collected : ℕ → ℕ → ℕ → Option TenantStatus → Container → List Tenant
collected zero k size status s = []
collected (suc n) k size status s =
    items_of (list_tenants k size status s).0 ++ collected n (suc k) size status s

module _ (size : ℕ) (status : Option TenantStatus) (s : Container) where
  abbrev effective : ℕ
  effective = (pagination_params 1 size).size

  -- One page is a slice of the matching tenants.
  items_of-page :
      (k : ℕ)
      → items_of (list_tenants (suc k) size status s).0
        ≡ take effective (drop (k * effective) (matching status (values s.tenants.store)))
  unfolding list_tenants running Repo.list_tenants offset pagination_params
  items_of-page k =
      let first : max 1 (suc k) - 1 ≡ k = omega arith in
      ap (λ p. take effective (drop (p * effective) (matching status (values s.tenants.store))))
        first

  collected-slice :
      (n k : ℕ)
      → collected n (suc k) size status s
        ≡ take (n * effective) (drop (k * effective) (matching status (values s.tenants.store)))
  collected-slice zero k =
      let nothing : 0 ≡ 0 * effective = omega arith in
      ap (λ j. take j (drop (k * effective) (matching status (values s.tenants.store)))) nothing
  collected-slice (suc n) k =
      let items = matching status (values s.tenants.store) in
      let here = drop (k * effective) items in
      let next : k * effective + effective ≡ suc k * effective = sym (suc-mul k effective) in
      let sum : effective + n * effective ≡ suc n * effective =
        omega (arith, suc-mul n effective) in
      rw
        (
          items_of-page k,
          collected-slice n (suc k),
          ← next,
          ← drop-drop (k * effective) effective items,
          ← take_add effective (n * effective) here,
          sum,
        )
        refl

  -- Reading all pages, from the first one to the last that the first response announces, gives
  -- every matching tenant once, in the order of the store.
  pub collected-all :
      (first : PaginatedResponse Tenant)
      → (list_tenants 1 size status s).0 ≡ ok first
      → collected (pages first) 1 size status s ≡ matching status (values s.tenants.store)
  unfolding list_tenants running Repo.list_tenants
  collected-all first e =
      let items = matching status (values s.tenants.store) in
      let same = ok_inj e in
      let total : length items ≡ first.total = ap (λ r. r.total) same in
      let page_size : effective ≡ first.size = ap (λ r. r.size) same in
      let start : 0 * effective ≡ 0 = omega arith in
      let sized : 1 ≤ first.size = rw (← page_size) (pagination_params-bounds 1 size).1 in
      let enough : length items ≤ pages first * effective =
        rw (total, page_size) (pages-cover first sized).0 in
      collected-slice (pages first) 0
      ∙ ap (λ o. take (pages first * effective) (drop o items)) start
      ∙ take_all (pages first * effective) items enough
