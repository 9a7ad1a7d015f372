-- ===== src/Prelude/Texts.antt =====
-- Building texts, and whole numbers of either sign.
use Prim.Native.String
use vops.Prelude.{ℕ, String, List, [], ◌∷◌}

infixr 65 ◌⋯◌
abbrev pub ◌⋯◌ : String → String → String
a ⋯ b = String.◌++◌ a b

-- xs.join(separator)
unfoldable pub join : String → List String → String
join separator [] = ""
join separator (x ∷ []) = x
join separator (x ∷ y ∷ rest) = x ⋯ separator ⋯ join separator (y ∷ rest)

-- `negsuc n` is -(n + 1).
pub data ℤ : Type 0 where
  pos : ℕ → ℤ
  negsuc : ℕ → ℤ

-- Math.max(0, a)
abbrev pub clamp : ℤ → ℕ
clamp (pos n) = n
clamp (negsuc n) = 0
