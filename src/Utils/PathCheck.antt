-- ===== src/Utils/PathCheck.antt =====
-- `is_path_ok` of src/tm_utils.c. `curl_easy_unescape` is a parameter: `none` where it fails.
use tracemate.Base.{
  Bool, true, false, List, [], ◌∷◌, Option, none, some, if◌then◌else◌, Bytes, codes,
}
use tracemate.CString.{strstr, until_nul}

-- The texts that the chain of `strstr` tests looks for, in its order.
abbrev pub refused : List Bytes
refused =
    codes ".."
    ∷ codes "//"
    ∷ codes ".git"
    ∷ codes ".ssh"
    ∷ codes ".svn"
    ∷ codes ".vscode"
    ∷ codes ".htaccess"
    ∷ codes "etc"
    ∷ codes "php"
    ∷ codes "<script>"
    ∷ []

abbrev pub found {ℓ} : {A : Type ℓ} → Option A → Bool
found none = false
found (some _) = true

-- The tests one after the other, each with an early return.
has_none : List Bytes → Bytes → Bool
has_none [] decoded = true
has_none (p ∷ ps) decoded = if found (strstr decoded p) then false else has_none ps decoded

decoded_ok : Option Bytes → Bool
unfolding has_none until_nul
decoded_ok none = false
decoded_ok (some decoded) = has_none refused (until_nul decoded)

-- `none` is the NULL string. The tests read the decoded buffer up to its first NUL.
unfoldable pub is_path_ok : (Bytes → Option Bytes) → Option Bytes → Bool
unfolding decoded_ok
is_path_ok unescape none = true
is_path_ok unescape (some str) = decoded_ok (unescape str)
