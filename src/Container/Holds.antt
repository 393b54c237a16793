-- ===== src/Container/Holds.antt =====
-- Proof rules for pre- and postconditions beside the relation of `Follows`: from a container with
-- `P` an action follows `R`, and ends with `Q` of its value or, if it raises, with `E`.
use eu_saas.Prelude.{◌+◌, ℕ, ◌≡◌, refl, Bool, true, false}
use eu_saas.Domain.Errors.{Error}
use eu_saas.Container.State.{Container}
use eu_saas.Container.Actions.{
  Result, ok, err, Action, and_then, ◌>>=◌, pure, gets, handled, try_except, call, modify, raise_if,
}
use eu_saas.Container.Follows.{Preorder, Follows}

abbrev pub Ends :
    {A : Type 0}
    → (Container → Container → Type 0)
    → Container
    → (A → Container → Type 0)
    → (Container → Type 0)
    → Result A × Container
    → Type 0
Ends R s Q E (ok a, t) = R s t × Q a t
Ends R s Q E (err e, t) = R s t × E t

pub record Holds {A : Type 0} (R : Container → Container → Type 0) (P : Container → Type 0)
    (m : Action A) (Q : A → Container → Type 0) (E : Container → Type 0) : Type 0 where
  pub at : (s : Container) → P s → Ends R s Q E (m s)

module _ {R : Container → Container → Type 0} (p : Preorder R) where
  Ends-after :
      {A : Type 0} (Q : A → Container → Type 0) (E : Container → Type 0) (s t : Container)
      (r : Result A × Container)
      → R s t
      → Ends R t Q E r
      → Ends R s Q E r
  Ends-after Q E s t (ok a, u) h (step, q) = (p.transitive s t u h step, q)
  Ends-after Q E s t (err e, u) h (step, q) = (p.transitive s t u h step, q)

  and_then-Ends :
      {A B : Type 0} (Q : A → Container → Type 0) (T : B → Container → Type 0)
      (E : Container → Type 0) (s : Container) (r : Result A × Container) (f : A → Action B)
      → Ends R s Q E r
      → ((a : A) → Holds R (Q a) (f a) T E)
      → Ends R s T E (and_then r f)
  and_then-Ends Q T E s (ok a, t) f (step, q) k = Ends-after T E s t (f a t) step ((k a).at t q)
  and_then-Ends Q T E s (err e, t) f h k = h

  pub >>=-Holds :
      {A B : Type 0} {P : Container → Type 0} {Q : A → Container → Type 0}
      {T : B → Container → Type 0} {E : Container → Type 0} (m : Action A) (f : A → Action B)
      → Holds R P m Q E
      → ((a : A) → Holds R (Q a) (f a) T E)
      → Holds R P (m >>= f) T E
  unfolding ◌>>=◌
  >>=-Holds {Q = Q} {T = T} {E = E} m f h k = record {
    at = λ s pre. and_then-Ends Q T E s (m s) f (h.at s pre) k;
  }

  -- An action that follows a smaller relation, which keeps `P`.
  framed :
      {A : Type 0} (L : Container → Container → Type 0) (P E : Container → Type 0) (s : Container)
      (r : Result A × Container)
      → P s
      → L s r.1
      → ((u t : Container) → L u t → R u t)
      → ((u t : Container) → L u t → P u → P t)
      → ((u : Container) → P u → E u)
      → Ends R s (λ _. P) E r
  framed L P E s (ok a, t) pre step wider kept fails = (wider s t step, kept s t step pre)
  framed L P E s (err e, t) pre step wider kept fails =
      (wider s t step, fails t (kept s t step pre))

  pub frame-Holds :
      {A : Type 0} {L : Container → Container → Type 0} {P E : Container → Type 0} (m : Action A)
      → Follows L m
      → ((u t : Container) → L u t → R u t)
      → ((u t : Container) → L u t → P u → P t)
      → ((u : Container) → P u → E u)
      → Holds R P m (λ _. P) E
  frame-Holds {L = L} {P = P} {E = E} m h wider kept fails = record {
    at = λ s pre. framed L P E s (m s) pre (h.at s) wider kept fails;
  }

  handled-Ends :
      {A : Type 0} (Q : A → Container → Type 0) (E F : Container → Type 0) (s : Container)
      (r : Result A × Container) (f : Error → Action A)
      → Ends R s Q E r
      → ((e : Error) → Holds R E (f e) Q F)
      → Ends R s Q F (handled r f)
  handled-Ends Q E F s (ok a, t) f h k = h
  handled-Ends Q E F s (err e, t) f (step, bad) k = Ends-after Q F s t (f e t) step ((k e).at t bad)

  pub try_except-Holds :
      {A : Type 0} {P : Container → Type 0} {Q : A → Container → Type 0} {E F : Container → Type 0}
      (m : Action A) (f : Error → Action A)
      → Holds R P m Q E
      → ((e : Error) → Holds R E (f e) Q F)
      → Holds R P (try_except m f) Q F
  unfolding try_except
  try_except-Holds {Q = Q} {E = E} {F = F} m f h k = record {
    at = λ s pre. handled-Ends Q E F s (m s) f (h.at s pre) k;
  }

  -- The test of a guard is known behind it.
  pub raise_if-Holds :
      {P E : Container → Type 0} (b : Bool) (e : Error)
      → ((s : Container) → P s → E s)
      → Holds R P (raise_if b e) (λ _ s. P s × (b ≡ false)) E
  unfolding raise_if
  raise_if-Holds true e fails = record { at = λ s pre. (p.reflexive s, fails s pre) }
  raise_if-Holds false e fails = record { at = λ s pre. (p.reflexive s, (pre, refl)) }

  pub pure-Holds :
      {A : Type 0} {P : Container → Type 0} {Q : A → Container → Type 0} {E : Container → Type 0}
      (a : A)
      → ((s : Container) → P s → Q a s)
      → Holds R P (pure a) Q E
  unfolding pure
  pure-Holds a h = record { at = λ s pre. (p.reflexive s, h s pre) }

  pub gets-Holds :
      {A : Type 0} {P : Container → Type 0} {E : Container → Type 0} (f : Container → A)
      → Holds R P (gets f) (λ a s. P s × (a ≡ f s)) E
  unfolding gets
  gets-Holds f = record { at = λ s pre. (p.reflexive s, (pre, refl)) }

  pub call-Holds :
      {A : Type 0} {P : Container → Type 0} {Q : A → Container → Type 0} {E : Container → Type 0}
      (f : ℕ → A)
      → ((s : Container) → P s → Q (f s.calls) (record s { calls = s.calls + 1 }))
      → Holds R P (call f) Q E
  unfolding call
  call-Holds f h = record { at = λ s pre. (p.calling s, h s pre) }

  pub weaken-Holds :
      {A : Type 0} {P P' : Container → Type 0} {Q : A → Container → Type 0} {E : Container → Type 0}
      (m : Action A)
      → ((s : Container) → P s → P' s)
      → Holds R P' m Q E
      → Holds R P m Q E
  weaken-Holds m h k = record { at = λ s pre. k.at s (h s pre) }

  -- Nothing is asked of the value.
  forget-Ends :
      {A : Type 0} (Q : A → Container → Type 0) (E : Container → Type 0) (s : Container)
      (r : Result A × Container)
      → Ends R s Q E r
      → Ends R s (λ _ s. Unit) E r
  forget-Ends Q E s (ok a, t) h = (h.0, tt)
  forget-Ends Q E s (err e, t) h = h

  pub forget-Holds :
      {A : Type 0} {P : Container → Type 0} {Q : A → Container → Type 0} {E : Container → Type 0}
      (m : Action A)
      → Holds R P m Q E
      → Holds R P m (λ _ s. Unit) E
  forget-Holds {Q = Q} {E = E} m h = record { at = λ s pre. forget-Ends Q E s (m s) (h.at s pre) }

  pub modify-Holds :
      {P Q E : Container → Type 0} (f : Container → Container)
      → ((s : Container) → P s → R s (f s) × Q (f s))
      → Holds R P (modify f) (λ _. Q) E
  unfolding modify
  modify-Holds f h = record { at = h }
