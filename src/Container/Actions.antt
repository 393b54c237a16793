-- ===== src/Container/Actions.antt =====
-- Methods as actions: they take the container, and return what it has become with a result or an
-- exception.
use eu_saas.Prelude.{◌≡◌, ℕ, ◌+◌, Bool, true, false, Option, none, some}
use eu_saas.Domain.Errors.{Error, external}
use eu_saas.Container.State.{Container}
use eu_saas.Container.Outside.{Reply, returned, raised}

pub data Result {ℓ} (A : Type ℓ) : Type ℓ where
  ok : A → Result A
  err : Error → Result A

pub ok_inj : {A : Type 0} {a b : A} → ok a ≡ ok b → a ≡ b
ok_inj e = cc

abbrev pub Action : Type 0 → Type 0
Action A = Container → Result A × Container

infixl 5 ◌>>=◌ ◌>>◌
module _ {A B : Type 0} where
  abbrev pub and_then : Result A × Container → (A → Action B) → Result B × Container
  and_then (ok a, s) f = f a s
  and_then (err e, s) f = (err e, s)

unfoldable pub ◌>>=◌ : {A B : Type 0} → Action A → (A → Action B) → Action B
◌>>=◌ m f s = and_then (m s) f

abbrev pub ◌>>◌ : {A B : Type 0} → Action A → Action B → Action B
m >> k = m >>= λ _. k

module _ {A : Type 0} where
  unfoldable pub pure : A → Action A
  pure a s = (ok a, s)

  unfoldable pub raise : Error → Action A
  raise e s = (err e, s)

  unfoldable pub gets : (Container → A) → Action A
  gets f s = (ok (f s), s)

  unfoldable pub or_raise : Option A → Error → Action A
  unfolding raise pure
  or_raise none e = raise e
  or_raise (some a) e = pure a

  abbrev pub handled : Result A × Container → (Error → Action A) → Result A × Container
  handled (ok a, s) handler = (ok a, s)
  handled (err e, s) handler = handler e s

  -- `try: body` / `except Exception as e: handler(e)`
  unfoldable pub try_except : Action A → (Error → Action A) → Action A
  try_except body handler s = handled (body s) handler

  unfoldable pub answer : Reply A → Action A
  unfolding pure raise
  answer (returned a) = pure a
  answer (raised message) = raise (external message)

  -- The next call of the outside world.
  unfoldable pub call : (ℕ → A) → Action A
  call f s = (ok (f s.calls), record s { calls = s.calls + 1 })

unfoldable pub modify : (Container → Container) → Action (Unit {0})
modify f s = (ok tt, f s)

unfoldable pub raise_if : Bool → Error → Action (Unit {0})
unfolding raise pure
raise_if true e = raise e
raise_if false e = pure tt

-- `if test: body`
unfoldable pub when : Bool → Action (Unit {0}) → Action (Unit {0})
unfolding pure
when true body = body
when false body = pure tt

unfoldable pub call_port : {A : Type 0} → (ℕ → Reply A) → Action A
unfolding ◌>>=◌ call answer
call_port f = call f >>= answer

-- What a proof unfolds to run an action.
unfoldable pub running : Unit {0}
unfolding ◌>>=◌ pure raise gets or_raise try_except call call_port modify raise_if when
running = tt
