-- ===== src/Base/Outcome.antt =====
-- The outcome of a run of kernel code: a result, the endless loop of `_panic`, a read or write
-- through a null pointer or a write past the end of a variable, or a loop that has used up the fuel that
-- the model gives it.
use mathlib.Core.Bool.{Bool, true, false}
use mathlib.Core.Option.{Option, none, some}
use james_m.Base.Tests.{if◌then◌else◌}

pub data Run {ℓ} (A : Type ℓ) : Type ℓ where
  ok : A → Run A
  panic : Run A
  fault : Run A
  out_of_fuel : Run A

infixl 5 ◌>>=◌ ◌>>◌
abbrev pub ◌>>=◌ {ℓ κ} : {A : Type ℓ} {B : Type κ} → Run A → (A → Run B) → Run B
ok a >>= f = f a
panic >>= f = panic
fault >>= f = fault
out_of_fuel >>= f = out_of_fuel

abbrev pub ◌>>◌ {ℓ} : {B : Type ℓ} → Run (Unit {0}) → Run B → Run B
m >> k = m >>= λ _. k

-- The macro KASSERT of common.h.
abbrev pub kassert : Bool → Run (Unit {0})
kassert true = ok tt
kassert false = panic

-- A run that the fuel is enough for: it returns, panics or faults.
pub data Halts {ℓ} {A : Type ℓ} : Run A → Type ℓ where
  halts_ok : {a : A} → Halts (ok a)
  halts_panic : Halts panic
  halts_fault : Halts fault

pub Halts->>= {ℓ κ} :
    {A : Type ℓ} {B : Type κ} {m : Run A} {f : A → Run B}
    → Halts m
    → ((a : A) → Halts (f a))
    → Halts (m >>= f)
Halts->>= (halts_ok {a}) k = k a
Halts->>= halts_panic k = halts_panic
Halts->>= halts_fault k = halts_fault

pub Halts-if {ℓ} :
    {A : Type ℓ} (b : Bool) {x y : Run A} → Halts x → Halts y → Halts (if b then x else y)
Halts-if true p q = p
Halts-if false p q = q

pub Halts-option {ℓ κ} :
    {A : Type ℓ} {B : Type κ} (o : Option A) (n : Run B) (s : A → Run B)
    → Halts n
    → ((a : A) → Halts (s a))
    → Halts (elim o [ none ↦ n | some a ↦ s a ])
Halts-option none n s p q = p
Halts-option (some a) n s p q = q a

pub Halts-kassert : (b : Bool) → Halts (kassert b)
Halts-kassert true = halts_ok
Halts-kassert false = halts_panic
