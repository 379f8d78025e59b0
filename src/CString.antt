-- ===== src/CString.antt =====
-- C strings and the functions of <string.h> that the program calls. A string is the list of its
-- bytes before the NUL. A pointer into a string is the pair of what stands before it and of what
-- it points at.
pub mod Search
pub mod Tokens
use tracemate.Base.{
  ℕ, zero, Bool, true, false, ◌&&◌, List, [], ◌∷◌, ◌++◌, Option, none, some, ◌==◌, if◌then◌else◌,
  Bytes,
}

-- strcmp(a, b) == 0
unfoldable pub equal : Bytes → Bytes → Bool
equal [] [] = true
equal [] (d ∷ t) = false
equal (c ∷ s) [] = false
equal (c ∷ s) (d ∷ t) = c == d && equal s t

unfoldable pub starts_with : Bytes → Bytes → Bool
starts_with [] s = true
starts_with (p ∷ ps) [] = false
starts_with (p ∷ ps) (c ∷ s) = p == c && starts_with ps s

-- A pointer moved one byte further from the start.
abbrev pub shift : ℕ → Option (Bytes × Bytes) → Option (Bytes × Bytes)
shift c none = none
shift c (some (before, at)) = some (c ∷ before, at)

-- strstr(s, p)
unfoldable pub strstr : Bytes → Bytes → Option (Bytes × Bytes)
unfolding starts_with
strstr [] p = if starts_with p [] then some ([], []) else none
strstr (c ∷ s) p = if starts_with p (c ∷ s) then some ([], c ∷ s) else shift c (strstr s p)

-- strchr(s, d), for `d` other than NUL
unfoldable pub strchr : Bytes → ℕ → Option (Bytes × Bytes)
strchr [] d = none
strchr (c ∷ s) d = if c == d then some ([], c ∷ s) else shift c (strchr s d)

abbrev emit : Bytes → List Bytes → List Bytes
emit [] rest = rest
emit (c ∷ cs) rest = (c ∷ cs) ∷ rest

tokens_onto : ℕ → Bytes → Bytes → List Bytes
tokens_onto sep cur [] = emit cur []
tokens_onto sep cur (c ∷ s) =
    if c == sep then emit cur (tokens_onto sep [] s) else tokens_onto sep (cur ++ c ∷ []) s

-- What a loop of strtok_r(s, "<sep>") yields: the runs between separators, without empty ones.
unfoldable pub tokens : ℕ → Bytes → List Bytes
unfolding tokens_onto
tokens sep s = tokens_onto sep [] s

-- The string at the start of a buffer: what stands before its first NUL.
unfoldable pub until_nul : Bytes → Bytes
until_nul [] = []
until_nul (c ∷ s) = if c == 0 then [] else c ∷ until_nul s
