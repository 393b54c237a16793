-- ===== src/Container/Yields.antt =====
-- Proof rules for actions that never raise: they follow a relation, and their value satisfies a
-- predicate, whatever the container is.
use eu_saas.Prelude.{ℕ, ◌≡◌, refl, Bool, true, false, if◌then◌else◌}
use eu_saas.Domain.Errors.{Error}
use eu_saas.Container.State.{Container}
use eu_saas.Container.Actions.{
  Result, ok, err, Action, and_then, ◌>>=◌, pure, gets, handled, try_except, call,
}
use eu_saas.Container.Follows.{Preorder, Follows}

abbrev pub Gives :
    {A : Type 0}
    → (Container → Container → Type 0)
    → Container
    → (A → Type 0)
    → Result A × Container
    → Type 0
Gives R s Q (ok a, t) = R s t × Q a
Gives R s Q (err e, t) = ⊥

pub record Yields {A : Type 0} (R : Container → Container → Type 0) (m : Action A) (Q : A → Type 0)
    : Type 0 where
  pub at : (s : Container) → Gives R s Q (m s)

module _ {R : Container → Container → Type 0} (p : Preorder R) where
  Gives-after :
      {A : Type 0} (Q : A → Type 0) (s t : Container) (r : Result A × Container)
      → R s t
      → Gives R t Q r
      → Gives R s Q r
  Gives-after Q s t (ok a, u) h (step, q) = (p.transitive s t u h step, q)
  Gives-after Q s t (err e, u) h bad = bad

  and_then-Gives :
      {A B : Type 0} (Q : A → Type 0) (T : B → Type 0) (s : Container) (r : Result A × Container)
      (f : A → Action B)
      → Gives R s Q r
      → ((a : A) → Q a → Yields R (f a) T)
      → Gives R s T (and_then r f)
  and_then-Gives Q T s (ok a, t) f (step, q) k = Gives-after T s t (f a t) step ((k a q).at t)
  and_then-Gives Q T s (err e, t) f bad k = absurd bad

  pub >>=-Yields :
      {A B : Type 0} (m : Action A) (f : A → Action B) (Q : A → Type 0) {T : B → Type 0}
      → Yields R m Q
      → ((a : A) → Q a → Yields R (f a) T)
      → Yields R (m >>= f) T
  unfolding ◌>>=◌
  >>=-Yields m f Q {T = T} h k = record { at = λ s. and_then-Gives Q T s (m s) f (h.at s) k }

  pub pure-Yields : {A : Type 0} (a : A) (Q : A → Type 0) → Q a → Yields R (pure a) Q
  unfolding pure
  pure-Yields a Q q = record { at = λ s. (p.reflexive s, q) }

  pub gets-Yields : {A : Type 0} (f : Container → A) → Yields R (gets f) (λ _. Unit)
  unfolding gets
  gets-Yields f = record { at = λ s. (p.reflexive s, tt) }

  pub call-Yields : {A : Type 0} (f : ℕ → A) → Yields R (call f) (λ _. Unit)
  unfolding call
  call-Yields f = record { at = λ s. (p.calling s, tt) }

  pub if-Yields :
      {A : Type 0} (b : Bool) (m k : Action A) (Q : A → Type 0)
      → Yields R m Q
      → Yields R k Q
      → Yields R (if b then m else k) Q
  if-Yields true m k Q h g = h
  if-Yields false m k Q h g = g

  caught :
      {A : Type 0} (Q : A → Type 0) (s : Container) (r : Result A × Container)
      (f : Error → Action A)
      → R s r.1
      → ((a : A) → r.0 ≡ ok a → Q a)
      → ((e : Error) → Yields R (f e) Q)
      → Gives R s Q (handled r f)
  caught Q s (ok a, t) f step good k = (step, good a refl)
  caught Q s (err e, t) f step good k = Gives-after Q s t (f e t) step ((k e).at t)

  -- A handler that does not raise, around a body that may.
  pub try_except-Yields :
      {A : Type 0} (m : Action A) (f : Error → Action A) (Q : A → Type 0)
      → Follows R m
      → ((s : Container) (a : A) → (m s).0 ≡ ok a → Q a)
      → ((e : Error) → Yields R (f e) Q)
      → Yields R (try_except m f) Q
  unfolding try_except
  try_except-Yields m f Q h good k = record { at = λ s. caught Q s (m s) f (h.at s) (good s) k }

ended :
    {A : Type 0} (R : Container → Container → Type 0) (Q : A → Type 0) (s : Container)
    (r x : Result A × Container)
    → x ≡ r
    → Gives R s Q r
    → (a : A) × (t : Container) × (x ≡ (ok a, t)) × R s t × Q a
ended R Q s (ok a, t) x e (step, q) = (a, t, e, step, q)
ended R Q s (err e', t) x e bad = absurd bad

-- How such an action ends.
pub yielded :
    {A : Type 0} {R : Container → Container → Type 0} {Q : A → Type 0} (m : Action A)
    → Yields R m Q
    → (s : Container) → (a : A) × (t : Container) × (m s ≡ (ok a, t)) × R s t × Q a
yielded {R = R} {Q = Q} m h s = ended R Q s (m s) (m s) refl (h.at s)
