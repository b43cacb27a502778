-- ===== src/Extension/Matching.antt =====
-- extension/src/matching.rs
use pop_node.Prelude.{ℕ, Bool, ◌&&◌, ◌==◌}
use pop_node.Prelude.Bytes.{low_byte, high_byte, from_le_bytes}
use pop_node.Extension.Environment.{Environment}

module _ (e : Environment) where
  open e use {State, func_id, ext_id}

  -- `Equals<ExtId, FuncId>`
  unfoldable pub equals : ℕ → ℕ → State → Bool
  equals ext func env = ext_id env == ext && func_id env == func

  -- `FunctionId<T>`
  unfoldable pub function_id : ℕ → State → Bool
  function_id t env = func_id env == t

  -- `WithFuncId<T>`
  unfoldable pub with_func_id : ℕ → State → Bool
  with_func_id t env =
      from_le_bytes (low_byte (func_id env)) (high_byte (func_id env)) (low_byte (ext_id env))
        (high_byte (ext_id env))
      == t
