-- ===== src/Container/Follows.antt =====
-- Proof rules for a relation between the container before and after an action. For a preorder, an
-- action follows it if its parts do.
use eu_saas.Prelude.{ℕ, ◌+◌, ◌≡◌, refl, Bool, if◌then◌else◌, true, false, Option, none, some}
use eu_saas.Domain.Errors.{Error}
use eu_saas.Container.State.{Container}
use eu_saas.Container.Outside.{Reply, returned, raised}
use eu_saas.Container.Actions.{
  Result, ok, err, Action, running, and_then, ◌>>=◌, pure, raise, gets, or_raise, handled,
  try_except, call, call_port, modify, raise_if, when,
}

-- A preorder that calls of the outside world respect.
pub record Preorder (R : Container → Container → Type 0) : Type 0 where
  pub reflexive : (s : Container) → R s s
  pub transitive : (s t u : Container) → R s t → R t u → R s u
  pub calling : (s : Container) → R s (record s { calls = s.calls + 1 })

-- Whatever the result, an exception too.
pub record Follows {A : Type 0} (R : Container → Container → Type 0) (m : Action A) : Type 0 where
  pub at : (s : Container) → R s (m s).1

module _ {R : Container → Container → Type 0} (p : Preorder R) where
  and_then-follows :
      {A B : Type 0} (s : Container) (r : Result A × Container) (f : A → Action B)
      → R s r.1
      → ((a : A) → Follows R (f a))
      → R s (and_then r f).1
  and_then-follows s (ok a, t) f h k = p.transitive s t (f a t).1 h ((k a).at t)
  and_then-follows s (err e, t) f h k = h

  pub >>=-Follows :
      {A B : Type 0} (m : Action A) (f : A → Action B)
      → Follows R m
      → ((a : A) → Follows R (f a))
      → Follows R (m >>= f)
  unfolding ◌>>=◌
  >>=-Follows m f h k = record { at = λ s. and_then-follows s (m s) f (h.at s) k }

  pub pure-Follows : {A : Type 0} (a : A) → Follows R (pure a)
  unfolding running
  pure-Follows a = record { at = p.reflexive }

  pub raise-Follows : (A : Type 0) (e : Error) → Follows R (raise {A = A} e)
  unfolding running
  raise-Follows A e = record { at = p.reflexive }

  pub gets-Follows : {A : Type 0} (f : Container → A) → Follows R (gets f)
  unfolding running
  gets-Follows f = record { at = p.reflexive }

  pub or_raise-Follows : {A : Type 0} (o : Option A) (e : Error) → Follows R (or_raise o e)
  unfolding running
  or_raise-Follows none e = record { at = p.reflexive }
  or_raise-Follows (some a) e = record { at = p.reflexive }

  pub call-Follows : {A : Type 0} (f : ℕ → A) → Follows R (call f)
  unfolding running
  call-Follows f = record { at = p.calling }

  reply-follows :
      {A : Type 0} (f : ℕ → Reply A) (s : Container) (r : Reply A)
      → f s.calls ≡ r
      → R s (call_port f s).1
  unfolding running
  reply-follows f s (returned a) e = rw e (p.calling s)
  reply-follows f s (raised message) e = rw e (p.calling s)

  pub call_port-Follows : {A : Type 0} (f : ℕ → Reply A) → Follows R (call_port f)
  call_port-Follows f = record { at = λ s. reply-follows f s (f s.calls) refl }

  pub modify-Follows :
      (f : Container → Container) → ((s : Container) → R s (f s)) → Follows R (modify f)
  unfolding running
  modify-Follows f h = record { at = h }

  pub raise_if-Follows : (b : Bool) (e : Error) → Follows R (raise_if b e)
  unfolding running
  raise_if-Follows true e = record { at = p.reflexive }
  raise_if-Follows false e = record { at = p.reflexive }

  pub when-Follows : (b : Bool) (m : Action (Unit {0})) → Follows R m → Follows R (when b m)
  unfolding running
  when-Follows true m h = h
  when-Follows false m h = record { at = p.reflexive }

  pub if-Follows :
      {A : Type 0} (b : Bool) (m k : Action A)
      → Follows R m
      → Follows R k
      → Follows R (if b then m else k)
  if-Follows true m k h g = h
  if-Follows false m k h g = g

  handled-follows :
      {A : Type 0} (s : Container) (r : Result A × Container) (f : Error → Action A)
      → R s r.1
      → ((e : Error) → Follows R (f e))
      → R s (handled r f).1
  handled-follows s (ok a, t) f h k = h
  handled-follows s (err e, t) f h k = p.transitive s t (f e t).1 h ((k e).at t)

  pub try_except-Follows :
      {A : Type 0} (m : Action A) (f : Error → Action A)
      → Follows R m
      → ((e : Error) → Follows R (f e))
      → Follows R (try_except m f)
  unfolding running
  try_except-Follows m f h k = record { at = λ s. handled-follows s (m s) f (h.at s) k }

pub ruleset follow_rules = (
  >>=-Follows, pure-Follows, raise-Follows, gets-Follows, or_raise-Follows, call-Follows,
  call_port-Follows, raise_if-Follows, when-Follows, if-Follows, try_except-Follows,
)
