-- ===== src/Muxer/Monad.antt =====
-- Calls of methods on a state that an error leaves as it stands: the outcome, and the state.
use go_astits.Base.{Bool, true, false, Result, ok, err, panic, unfinished, Error, if◌then◌else◌}

abbrev pub Op {ℓ κ} : Type ℓ → Type κ → Type (ℓ ⊔ κ)
Op S A = S → Result A × S

-- What follows a call that has ended.
abbrev pub follow {ℓ κ μ} :
    {S : Type ℓ} {A : Type κ} {B : Type μ} → (A → Op S B) → Result A × S → Result B × S
follow f (ok a, s) = f a s
follow f (err e, s) = (err e, s)
follow f (panic, s) = (panic, s)
follow f (unfinished, s) = (unfinished, s)

infixl 5 ◌>>=◌ ◌>>◌
unfoldable pub ◌>>=◌ {ℓ κ μ} :
    {S : Type ℓ} {A : Type κ} {B : Type μ} → Op S A → (A → Op S B) → Op S B
◌>>=◌ m f s = follow f (m s)

abbrev pub ◌>>◌ {ℓ κ} : {S : Type ℓ} {B : Type κ} → Op S (Unit {0}) → Op S B → Op S B
m >> k = m >>= λ _. k

unfoldable pub pure {ℓ κ} : {S : Type ℓ} {A : Type κ} → A → Op S A
pure a s = (ok a, s)

unfoldable pub throw {ℓ κ} : {S : Type ℓ} {A : Type κ} → Error → Op S A
throw e s = (err e, s)

unfoldable pub fault {ℓ κ} : {S : Type ℓ} {A : Type κ} → Op S A
fault s = (panic, s)

unfoldable pub exhausted {ℓ κ} : {S : Type ℓ} {A : Type κ} → Op S A
exhausted s = (unfinished, s)

unfoldable pub gets {ℓ κ} : {S : Type ℓ} {A : Type κ} → (S → A) → Op S A
gets f s = (ok (f s), s)

unfoldable pub modify {ℓ} : {S : Type ℓ} → (S → S) → Op S (Unit {0})
modify f s = (ok tt, f s)

-- A computation whose state is not that of the caller.
unfoldable pub outcome {ℓ κ} : {S : Type ℓ} {A : Type κ} → Result A → Op S A
outcome z s = (z, s)

-- The property `P` of the state outlives the call, however it ends.
module _ {ℓ κ} {S : Type ℓ} (P : S → Type κ) where
  pub record Keeps {μ} {A : Type μ} (m : Op S A) : Type (ℓ ⊔ κ) where
    pub kept : (s : S) → P s → P (m s).1

  pub Keeps-bind {μ ν} :
      {A : Type μ} {B : Type ν} {m : Op S A} {f : A → Op S B}
      → Keeps m
      → ((a : A) → Keeps (f a))
      → Keeps (m >>= f)
  unfolding ◌>>=◌
  Keeps-bind {m} {f} h k = record { kept = λ s p. follow_kept (m s) (h.kept s p) }
    where
      follow_kept : (z : Result _ × S) → P z.1 → P (follow f z).1
      follow_kept (ok a, s) p = (k a).kept s p
      follow_kept (err e, s) p = p
      follow_kept (panic, s) p = p
      follow_kept (unfinished, s) p = p

  pub Keeps-pure {μ} : {A : Type μ} (a : A) → Keeps (pure a)
  unfolding pure
  Keeps-pure a = record { kept = λ s p. p }

  pub Keeps-throw {μ} : {A : Type μ} (e : Error) → Keeps {A = A} (throw e)
  unfolding throw
  Keeps-throw e = record { kept = λ s p. p }

  pub Keeps-fault {μ} : {A : Type μ} → Keeps {A = A} fault
  unfolding fault
  Keeps-fault = record { kept = λ s p. p }

  pub Keeps-exhausted {μ} : {A : Type μ} → Keeps {A = A} exhausted
  unfolding exhausted
  Keeps-exhausted = record { kept = λ s p. p }

  pub Keeps-gets {μ} : {A : Type μ} (f : S → A) → Keeps (gets f)
  unfolding gets
  Keeps-gets f = record { kept = λ s p. p }

  pub Keeps-modify : (f : S → S) → ((s : S) → P s → P (f s)) → Keeps (modify f)
  unfolding modify
  Keeps-modify f h = record { kept = h }

  pub Keeps-outcome {μ} : {A : Type μ} (z : Result A) → Keeps (outcome z)
  unfolding outcome
  Keeps-outcome z = record { kept = λ s p. p }

  pub Keeps-if {μ} :
      {A : Type μ} (b : Bool) {x y : Op S A} → Keeps x → Keeps y → Keeps (if b then x else y)
  Keeps-if true h k = h
  Keeps-if false h k = k
