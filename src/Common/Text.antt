-- ===== src/Common/Text.antt =====
-- C strings as texts: their bytes, without the final 0.
use Prim.Native.Nat.{ℕ, zero, suc}
use Prim.Native.Char.{code}
use Prim.Native.String.{String}
use mathlib.Core.List.{List, [], ◌∷◌}

module _ {ℓ} {A : Type ℓ} where
  abbrev pub length : List A → ℕ
  length [] = 0
  length (x ∷ xs) = suc (length xs)

  abbrev pub get_or : List A → ℕ → A → A
  get_or [] i d = d
  get_or (x ∷ xs) zero d = x
  get_or (x ∷ xs) (suc i) d = get_or xs i d

abbrev pub codes : String → List ℕ
codes String.[] = []
codes (String.◌∷◌ c s) = code c ∷ codes s

-- strlen
abbrev pub strlen : String → ℕ
strlen s = length (codes s)

-- The bytes of the array that a literal stands for
abbrev pub bytes_of : String → ℕ → ℕ
bytes_of s i = get_or (codes s) i 0
