-- ===== src/Common/Marks.antt =====
-- High-water marks, which only rise. `none` is the mark before the first number.
use Prim.Native.Nat.{ℕ, ◌≤◌}
use mathlib.Core.Option.{Option, none, some}
use native.Mathlib.Omega.{arith}

-- The high-water mark `high` is at least `low`.
abbrev pub Covers : Option ℕ → Option ℕ → Type 0
Covers none high = Unit
Covers (some low) none = ⊥
Covers (some low) (some high) = low ≤ high

pub Covers-refl : (o : Option ℕ) → Covers o o
Covers-refl none = tt
Covers-refl (some n) = omega arith

pub Covers-trans : (a b c : Option ℕ) → Covers a b → Covers b c → Covers a c
Covers-trans none b c p q = tt
Covers-trans (some a) none c p q = absurd p
Covers-trans (some a) (some b) none p q = absurd q
Covers-trans (some a) (some b) (some c) p q = omega arith
