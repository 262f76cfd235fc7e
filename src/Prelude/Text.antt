-- ===== src/Prelude/Text.antt =====
-- Text literals as the bytes of a C string.
use Prim.Native.Nat.{ℕ}
use Prim.Native.Char.{code}
use Prim.Native.String.{String}
use mathlib.Core.List.{List, [], ◌∷◌, ◌++◌}

abbrev pub codes : String → List ℕ
codes String.[] = []
codes (String.◌∷◌ c s) = code c ∷ codes s

-- A string literal: its characters and the closing NUL.
abbrev pub literal : String → List ℕ
literal s = codes s ++ (0 ∷ [])
