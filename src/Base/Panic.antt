-- ===== src/Base/Panic.antt =====
-- A computation of the kernel that returns, or stops the machine by a call of `panic`.
use mathlib.Core.Path.{◌≡◌}
use mathlib.Core.Bool.{Bool, true, false}
use risc_v_operating_system.Base.Tests.{if◌then◌else◌}

pub data Run (A : Type 0) : Type 0 where
  ok : A → Run A
  panic : Run A

infixl 5 ◌>>=◌ ◌>>◌
abbrev pub ◌>>=◌ : {A B : Type 0} → Run A → (A → Run B) → Run B
r >>= next = elim r [ ok a ↦ next a | panic ↦ panic ]

abbrev pub ◌>>◌ : {A B : Type 0} → Run A → Run B → Run B
r >> s = elim r [ ok _ ↦ s | panic ↦ panic ]

-- `if(stop) panic(...)`
abbrev pub panic_if : Bool → Run (Unit {0})
panic_if stop = elim stop [ true ↦ panic | false ↦ ok tt ]

-- A run that does not panic, with what is true of its result.
pub data Safely {A : Type 0} (P : A → Type 0) : Run A → Type 0 where
  safely : {a : A} → P a → Safely P (ok a)

module _ {A B : Type 0} {P : A → Type 0} {Q : B → Type 0} where
  pub Safely-bind :
      {r : Run A} {next : A → Run B}
      → Safely P r
      → ((a : A) → P a → Safely Q (next a))
      → Safely Q (r >>= next)
  Safely-bind (safely p) then_next = then_next _ p

pub Safely-mono :
    {A : Type 0} {P Q : A → Type 0} {r : Run A} → Safely P r → ((a : A) → P a → Q a) → Safely Q r
Safely-mono (safely p) weaken = safely (weaken _ p)

-- a test that fails
pub Safely-else :
    {A : Type 0} {P : A → Type 0} {test : Bool} {s : Run A} (r : Run A)
    → test ≡ false
    → Safely P s
    → Safely P (if test then r else s)
Safely-else r e h = rw e h

pub was_safe : {A : Type 0} {P : A → Type 0} {a : A} → Safely P (ok a) → P a
was_safe (safely p) = p
