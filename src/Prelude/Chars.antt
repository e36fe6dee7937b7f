-- ===== src/Prelude/Chars.antt =====
-- Texts of the source as lists of bytes.
use Prim.Native.Nat.{ℕ}
use Prim.Native.Char.{code}
use Prim.Native.String.{String, [], ◌∷◌}
use mathlib.Core.List.{List, [] as []ᴸ, ◌∷◌ as ◌∷ᴸ◌}

-- The bytes of an ASCII text, without the NUL at its end.
unfoldable pub chars : String → List ℕ
chars [] = []ᴸ
chars (c ∷ s) = code c ∷ᴸ chars s
