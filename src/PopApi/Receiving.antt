-- ===== src/PopApi/Receiving.antt =====
-- How a method of the library reaches the runtime: the bytes of its identifier (pop-api/src/lib.rs)
-- in front of the input (pallets/api/src/extension.rs).
use pop_node.Prelude.{ℕ, ◌<◌, ◌/◌, ◌%◌, ◌≡◌, arith, List, ◌∷◌, ok}
use pop_node.Prelude.Bytes.{from_le_bytes}
use pop_node.Extension.Environment.{Environment}
use pop_node.Api.Extension.{prepend, module_and_index, version, func_id}

-- What pallet-contracts documents: the method identifier reaches the chain extension in two halves,
-- the lower as `func_id` and the upper as `ext_id`, and the whole input can be read.
pub record Receives (e : Environment) (method : ℕ) (input : List ℕ) (s : e.State) : Type 0 where
  pub func_id : e.func_id s ≡ method % 65536
  pub ext_id : e.ext_id s ≡ method / 65536
  pub read : e.read (e.in_len s) s ≡ ok input

pub prepend-Receives :
    (e : Environment) (function k : ℕ) (input : List ℕ) (s : e.State)
    → function < 256
    → k < 256
    → Receives e (from_le_bytes function 0 150 k) input s
    → (prepend e input s ≡ 0 ∷ 150 ∷ k ∷ input) × (func_id e s ≡ function)
unfolding prepend module_and_index version func_id
prepend-Receives e function k input s hf hk r =
    ((ground (arith, r.func_id, r.ext_id)), (ground (arith, r.func_id)))
