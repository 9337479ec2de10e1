-- ===== src/Prelude/Checks.antt =====
-- `Result<(), E>`: a chain of checks that stops at the first error, and what it accepts.
use mathlib.Core.Bool.{Bool, true, false}
use mathlib.Core.Logic.{◌⊎◌, inl, inr, ◌↔◌}
use mathlib.Core.Path.{◌≡◌, refl}

pub data Checked (E : Type 0) : Type 0 where
  ok : Checked E
  err : E → Checked E

infixl 5 ◌>>◌
abbrev pub ◌>>◌ : {E : Type 0} → Checked E → Checked E → Checked E
ok >> next = next
err e >> next = err e

-- `if b { return Err(e); }`
abbrev pub reject_if : {E : Type 0} → Bool → E → Checked E
reject_if true e = err e
reject_if false e = ok

-- Two requirements.
infixr 3 ◌&◌
pub record ◌&◌ (P Q : Type 0) : Type 0 where
  pub first : P
  pub rest : Q

-- A chain of checks accepts when each does.
pub and_then :
    {E P Q : Type 0} (a b : Checked E) → (a ≡ ok) ↔ P → (b ≡ ok) ↔ Q → ((a >> b) ≡ ok) ↔ (P & Q)
and_then ok b p q = (λ h. record { first = p.0 refl; rest = q.0 h }, λ r. q.1 r.rest)
and_then (err e) b p q = (λ h. cc, λ r. p.1 r.first)

-- A rejected test is one that holds.
pub unless : {E P : Type 0} (b : Bool) (e : E) → (b ≡ false) ↔ P → (reject_if b e ≡ ok) ↔ P
unless true e p = (λ h. cc, λ r. cc (p.1 r))
unless false e p = (λ h. p.0 refl, λ r. refl)

pub Checked-cases : {E : Type 0} (c : Checked E) → (c ≡ ok) ⊎ ((e : E) × (c ≡ err e))
Checked-cases ok = inl refl
Checked-cases (err e) = inr (e, refl)
