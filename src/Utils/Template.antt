-- ===== src/Utils/Template.antt =====
-- `tm_replace_vars` of src/tm_utils.c: `{{name}}` in a text is replaced by the value of `name`.
pub mod Segments
use tracemate.Base.{
  ℕ, Bool, ◌&&◌, not, List, [], ◌∷◌, ◌++◌, Option, none, some, ◌==◌, if◌then◌else◌, Bytes,
}

-- STATE_NONE, STATE_START_BRACE, STATE_IN_VAR, STATE_END_BRACE
pub data State : Type 0 where
  outside start_brace in_var end_brace : State

pub record Scan : Type 0 where
  pub state : State
  pub result : Bytes
  pub var_name : Bytes

-- What `values` holds for a name; a name that it does not hold is logged and replaced by nothing.
abbrev pub value_or_nothing : Option Bytes → Bytes
value_or_nothing none = []
value_or_nothing (some v) = v

-- One round of the loop, on the byte `x`.
unfoldable pub step_in : (Bytes → Option Bytes) → State → Scan → ℕ → Scan
step_in values outside t x =
    if x == b'{' then record t { state = start_brace } else record t { result = t.result ++ x ∷ [] }
step_in values start_brace t x =
    if x == b'{'
    then record t { state = in_var }
    else record t { state = outside; result = t.result ++ b'{' ∷ x ∷ [] }
step_in values in_var t x = record t {
  state = if x == b'}' then end_brace else in_var;
  var_name = if not (x == b' ') && not (x == b'}') then t.var_name ++ x ∷ [] else t.var_name;
}
step_in values end_brace t x =
    if x == b'}'
    then record {
      state = outside;
      result = t.result ++ value_or_nothing (values t.var_name);
      var_name = [];
    }
    else record t { state = outside; result = t.result ++ b'}' ∷ x ∷ [] }

unfoldable pub run : (Bytes → Option Bytes) → Scan → Bytes → Scan
unfolding step_in
run values t [] = t
run values t (x ∷ xs) = run values (step_in values t.state t x) xs

abbrev pub initial : Scan
initial = record { state = outside; result = []; var_name = [] }

unfoldable pub tm_replace_vars : Bytes → (Bytes → Option Bytes) → Bytes
unfolding run
tm_replace_vars source values = (run values initial source).result
