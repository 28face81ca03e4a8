-- ===== src/Outcome.antt =====
-- How a piece of threaded code ends: it goes on with a result, it spins in a loop whose condition
-- no peer will change, or the process ends (`exit(-1)`, a failed `assert`, an uncaught exception).
use pmraccess.Base.{◌≡◌, Bool, true, false}

pub data Outcome {ℓ} (A : Type ℓ) : Type ℓ where
  done : A → Outcome A
  waiting : Outcome A
  aborted : Outcome A

infixl 5 ◌>>=◌ ◌>>◌
abbrev pub ◌>>=◌ {ℓ κ} : {A : Type ℓ} {B : Type κ} → Outcome A → (A → Outcome B) → Outcome B
done a >>= f = f a
waiting >>= f = waiting
aborted >>= f = aborted

abbrev pub ◌>>◌ {ℓ} : {B : Type ℓ} → Outcome (Unit {0}) → Outcome B → Outcome B
m >> k = m >>= λ _. k

-- `while (!b) nop`, seen when no other thread can change `b`.
abbrev pub spin_until : Bool → Outcome (Unit {0})
spin_until true = done tt
spin_until false = waiting

-- `assert(b)`
abbrev pub check : Bool → Outcome (Unit {0})
check true = done tt
check false = aborted

-- What `P` says of the result, where there is one.
abbrev pub Ensures {ℓ κ} : {A : Type ℓ} → (A → Type κ) → Outcome A → Type κ
Ensures P (done a) = P a
Ensures P waiting = Unit
Ensures P aborted = Unit

pub ensured {ℓ κ} :
    {A : Type ℓ} (P : A → Type κ) {o : Outcome A} {a : A} → Ensures P o → o ≡ done a → P a
ensured P h e = rw e at h

pub Ensures-bind {ℓ κ} :
    {A B : Type ℓ} (P : A → Type κ) (Q : B → Type κ) (o : Outcome A) (f : A → Outcome B)
    → Ensures P o
    → ((a : A) → P a → Ensures Q (f a))
    → Ensures Q (o >>= f)
Ensures-bind P Q (done a) f h k = k a h
Ensures-bind P Q waiting f h k = tt
Ensures-bind P Q aborted f h k = tt
