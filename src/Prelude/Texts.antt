-- ===== src/Prelude/Texts.antt =====
-- Texts: concatenation, and the signed integers of 64 bits.
use Prim.Native.Nat.{ℕ, max}
use Prim.Native.String as Texts
use Prim.Native.String.{String}
use mathlib.Core.List.{List, [], ◌∷◌}

-- The texts one after another.
unfoldable pub concat : List String → String
concat [] = ""
concat (s ∷ l) = Texts.◌++◌ s (concat l)

-- `join`.
unfoldable pub join : String → List String → String
join separator [] = ""
join separator (s ∷ []) = s
join separator (s ∷ t ∷ l) = Texts.◌++◌ s (Texts.◌++◌ separator (join separator (t ∷ l)))

-- `negsuc n` is -(n + 1).
pub data ℤ : Type 0 where
  pos : ℕ → ℤ
  negsuc : ℕ → ℤ

-- `i.max(n)` for an n that is not negative.
abbrev pub max_int : ℤ → ℕ → ℕ
max_int (pos m) n = max m n
max_int (negsuc m) n = n
