-- ===== src/Base/Words.antt =====
-- The wrap-around of a `uint64_t`, and text literals as bytes.
use Prim.Native.Nat.{ℕ, ◌+◌, ◌%◌, ◌^◌}
use Prim.Native.Char.{code}
use Prim.Native.String.{String}
use mathlib.Core.List.{List, [], ◌∷◌}

abbrev pub u64 : ℕ
u64 = 2 ^ 64

-- `ck_pr_add_64` and `+` on `uint64_t`.
abbrev pub add64 : ℕ → ℕ → ℕ
add64 a b = (a + b) % u64

-- The bytes of an ASCII literal, without its NUL.
abbrev pub codes : String → List ℕ
codes String.[] = []
codes (String.◌∷◌ c s) = code c ∷ codes s
