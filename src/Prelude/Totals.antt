-- ===== src/Prelude/Totals.antt =====
-- Totals per key in a dictionary, over any values that are added: `d[k] = d.get(k, 0) + v`.
use eu_saas.Prelude.{All, ==_swap, false, ◌⊎◌, true, lookup-insert, inr, inl, ap, Bool-cases}
use mathlib.Core.Path.{sym, ◌∙◌, ◌≡◌, refl}
use mathlib.Core.List.{◌++◌, List, [], ◌∷◌}
use mathlib.Core.Option.{none-ne-some, Option, none, some}
use eu_saas.Prelude.Tests.{Comparable, ◌==◌, if◌then◌else◌, ==_refl}
use eu_saas.Prelude.Dicts.{Dict, values, lookup, insert}

-- A commutative monoid.
pub record Additive {ℓ} (A : Type ℓ) : Type ℓ where
  pub nothing : A
  pub add : A → A → A
  pub add_nothing : (a : A) → add nothing a ≡ a
  pub add_comm : (a b : A) → add a b ≡ add b a
  pub add_assoc : (a b c : A) → add (add a b) c ≡ add a (add b c)

module _ {ℓ} {A : Type ℓ} ⦃m : Additive A⦄ where
  pub add_right_comm : (a b c : A) → m.add (m.add a b) c ≡ m.add (m.add a c) b
  add_right_comm a b c = rw (m.add_assoc, m.add_comm b c) (sym (m.add_assoc a c b))

  -- `sum(xs, start)`
  unfoldable pub sum_from : A → List A → A
  sum_from start [] = start
  sum_from start (x ∷ xs) = sum_from (m.add start x) xs

  -- `sum(xs, 0)`
  abbrev pub sum : List A → A
  sum = sum_from m.nothing

  pub add-sum_from : (a b : A) (xs : List A) → m.add (sum_from a xs) b ≡ sum_from (m.add a b) xs
  unfolding sum_from
  add-sum_from a b [] = refl
  add-sum_from a b (x ∷ xs) =
      add-sum_from (m.add a x) b xs ∙ ap (λ c. sum_from c xs) (add_right_comm a x b)

  -- The start may as well be added last.
  pub sum_from_start : (a : A) (xs : List A) → sum_from a xs ≡ m.add (sum xs) a
  sum_from_start a xs =
      sym (add-sum_from m.nothing a xs ∙ ap (λ c. sum_from c xs) (m.add_nothing a))

  pub sum_from-append :
      (a : A) (xs ys : List A) → sum_from a (xs ++ ys) ≡ sum_from (sum_from a xs) ys
  unfolding sum_from
  sum_from-append a [] ys = refl
  sum_from-append a (x ∷ xs) ys = sum_from-append (m.add a x) xs ys

  abbrev pub or_nothing : Option A → A
  or_nothing none = m.nothing
  or_nothing (some a) = a

  -- What an optional total becomes when more is added, and stays if nothing is.
  abbrev pub joined : Option A → List A → Option A
  joined o [] = o
  joined o (x ∷ xs) = joined (some (m.add (or_nothing o) x)) xs

  pub joined-some : (a : A) (xs : List A) → joined (some a) xs ≡ some (sum_from a xs)
  unfolding sum_from
  joined-some a [] = refl
  joined-some a (x ∷ xs) = joined-some (m.add a x) xs

module _ {ℓ κ} {K : Type ℓ} {A : Type κ} ⦃e : Comparable K⦄ where
  -- What the items hold for a key.
  abbrev pub gathered : K → List (K × A) → List A
  gathered k [] = []
  gathered k ((j, a) ∷ items) = let rest = gathered k items in if j == k then a ∷ rest else rest

module _ {ℓ κ} {K : Type ℓ} {A : Type κ} ⦃e : Comparable K⦄ ⦃m : Additive A⦄ where
  unfoldable pub add_at : K → A → Dict K A → Dict K A
  add_at k a d = insert k (m.add (or_nothing (lookup k d)) a) d

  -- `for k, a in items: d[k] = d.get(k, 0) + a`
  unfoldable pub totals_from : Dict K A → List (K × A) → Dict K A
  totals_from d [] = d
  totals_from d ((k, a) ∷ items) = totals_from (add_at k a d) items

  lookup-add_at :
      (k j : K) (a : A) (d : Dict K A) (rest : List A)
      → ((j == k) ≡ true) ⊎ ((j == k) ≡ false)
      → joined (lookup k (add_at j a d)) rest
        ≡ joined (lookup k d) (if j == k then a ∷ rest else rest)
  unfolding add_at
  lookup-add_at k j a d rest (inl same) = rw (lookup-insert, same, (e.equal_iff j k).0 same) refl
  lookup-add_at k j a d rest (inr other) = rw (lookup-insert, other) refl

  pub lookup-totals_from :
      (k : K) (d : Dict K A) (items : List (K × A))
      → lookup k (totals_from d items) ≡ joined (lookup k d) (gathered k items)
  unfolding totals_from add_at
  lookup-totals_from k d [] = refl
  lookup-totals_from k d ((j, a) ∷ items) =
      lookup-totals_from k (add_at j a d) items
      ∙ lookup-add_at k j a d (gathered k items) (Bool-cases (j == k))

  insert-add :
      (k : K) (a b : A) (d : Dict K A) (old : Option A)
      → lookup k d ≡ old
      → sum_from b (values (insert k (m.add (or_nothing old) a) d))
        ≡ m.add (sum_from b (values d)) a
  unfolding insert lookup sum_from
  insert-add k a b [] old found = rw (sym found, m.add_nothing) refl
  insert-add k a b ((j, v) ∷ d) old found = elim (Bool-cases (j == k)) [
    | inl same ↦
        let there : some v ≡ old = rw same at found in
        rw (same, sym there)
          (ap (λ c. sum_from c (values d)) (sym (m.add_assoc b v a))
            ∙ sym (add-sum_from (m.add b v) a (values d)))
    | inr other ↦
        let further : lookup k d ≡ old = rw other at found in
        rw other (insert-add k a (m.add b v) d old further)
  ]

  -- Whatever the keys are, the totals add up to what was there and the items.
  pub sum-totals_from :
      (d : Dict K A) (items : List (K × A))
      → sum (values (totals_from d items)) ≡ sum_from (sum (values d)) (values items)
  unfolding totals_from add_at sum_from
  sum-totals_from d [] = refl
  sum-totals_from d ((k, a) ∷ items) =
      sum-totals_from (add_at k a d) items
      ∙ ap (λ c. sum_from c (values items)) (insert-add k a m.nothing d (lookup k d) refl)

module _ {ℓ κ} {K : Type ℓ} {A : Type κ} ⦃e : Comparable K⦄ where
  -- No key comes twice.
  abbrev pub IsUnique : Dict K A → Type κ
  IsUnique [] = Unit
  IsUnique ((k, a) ∷ d) = (lookup k d ≡ none) × IsUnique d

  pub insert-IsUnique : (k : K) (a : A) (d : Dict K A) → IsUnique d → IsUnique (insert k a d)
  unfolding lookup insert
  insert-IsUnique k a [] h = (refl, tt)
  insert-IsUnique k a ((j, b) ∷ d) (alone, h) = elim (Bool-cases (j == k)) [
    | inl same ↦ rw same (alone, h)
    | inr other ↦
        rw other (lookup-insert k j a d ∙ rw (==_swap j k other) alone, insert-IsUnique k a d h)
  ]

module _ {ℓ κ} {K : Type ℓ} {A : Type κ} ⦃e : Comparable K⦄ where
  entries-beside :
      (k : K) (a : A) (d part : Dict K A)
      → lookup k d ≡ none
      → All (λ x. lookup x.0 d ≡ some x.1) part
      → All (λ x. lookup x.0 ((k, a) ∷ d) ≡ some x.1) part
  unfolding lookup
  entries-beside k a d [] alone h = tt
  entries-beside k a d ((j, b) ∷ part) alone (found, h) = elim (Bool-cases (k == j)) [
    | inl same ↦
        let clash : none ≡ some b =
          sym alone ∙ ap (λ i. lookup i d) ((e.equal_iff k j).0 same) ∙ found in
        absurd (none-ne-some b clash)
    | inr other ↦ (rw other found, entries-beside k a d part alone h)
  ]

  -- If no key comes twice, each entry is what its key leads to.
  pub lookup-entries : (d : Dict K A) → IsUnique d → All (λ x. lookup x.0 d ≡ some x.1) d
  unfolding lookup
  lookup-entries [] h = tt
  lookup-entries ((k, a) ∷ d) (alone, h) =
      (rw (==_refl k) refl, entries-beside k a d d alone (lookup-entries d h))

module _ {ℓ κ} {K : Type ℓ} {A : Type κ} ⦃e : Comparable K⦄ ⦃m : Additive A⦄ where
  pub totals_from-IsUnique :
      (d : Dict K A) (items : List (K × A)) → IsUnique d → IsUnique (totals_from d items)
  unfolding totals_from add_at
  totals_from-IsUnique d [] h = h
  totals_from-IsUnique d ((k, a) ∷ items) h =
      totals_from-IsUnique (add_at k a d) items
        (insert-IsUnique k (m.add (or_nothing (lookup k d)) a) d h)
