-- ===== src/Tests/Utilities.antt =====
-- Time windows, base64 and templates of src/tm_utils.h and src/tm_utils.c on small inputs.
use tracemate.Base.{[], ◌∷◌, Option, none, some, Bytes, codes, ◌≡◌, arith, if◌then◌else◌}
use tracemate.CString.{equal}
use tracemate.Utils.Template.{tm_replace_vars}
use tracemate.Utils.Template.Segments.{plain, variable, expand, replace_vars-print}

-- Only `a` and `ab` have a value.
abbrev values : Bytes → Option Bytes
values name =
    if equal name (codes "a")
    then some (codes "x")
    else if equal name (codes "ab")
    then some (codes "joined")
    else none

replace_vars-print_example :
    tm_replace_vars (codes "t{{ a }}") values
    ≡ expand values (plain b't' ∷ variable (codes " a ") ∷ [])
replace_vars-print_example = replace_vars-print values (plain b't' ∷ variable (codes " a ") ∷ []) (
  (λ e. ground arith),
  (((λ e. ground arith), ((λ e. ground arith), ((λ e. ground arith), tt))), tt),
)
