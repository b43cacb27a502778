-- ===== src/Extension.antt =====
-- extension/src/lib.rs: `Extension::call` over the functions of a configuration.
pub mod Environment
pub mod Matching
pub mod Decoding
pub mod Functions
pub mod Choice
pub mod Weights
pub mod Filtering
use pop_node.Prelude.{ℕ, List, Exec, gets, ◌>>=◌, ◌>>◌}
use pop_node.Frame.{Weight, DispatchError, RetVal}
use Functions.{Function, execute_tuple}

-- `Extension::call`: the overhead is charged, then the matching function runs.
unfoldable pub call :
    (e : Environment.Environment)
    → (ℕ → Weight)
    → DispatchError
    → List (Function e)
    → Exec DispatchError e.State RetVal
call e seal_debug_message decoding_failed functions = do
  len ← gets e.in_len
  e.charge_weight (seal_debug_message len)
  execute_tuple e decoding_failed functions
