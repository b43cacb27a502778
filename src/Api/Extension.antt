-- ===== src/Api/Extension.antt =====
-- pallets/api/src/extension.rs: how the four bytes of a function identifier are used. The identifier
-- reaches the runtime as two `u16`: `func_id` holds function and version, `ext_id` module and index.
use pop_node.Prelude.{ℕ, Bool, List, ◌∷◌, ◌==◌, Result, ok, err}
use pop_node.Prelude.Bytes.{low_byte, high_byte}
use pop_node.Frame.{DispatchError, converging}
use pop_node.Extension.Environment.{Environment}
use pop_node.Extension.Decoding.{Decoder}
use pop_node.Extension.Functions.{ErrorConverter}
use pop_node.Frame.{Weight}
use pop_node.Prelude.{Option}

module _ (e : Environment) where
  open e use {State}

  unfoldable pub func_id : State → ℕ
  func_id env = low_byte (e.func_id env)

  unfoldable pub module_and_index : State → ℕ × ℕ
  module_and_index env = (low_byte (e.ext_id env), high_byte (e.ext_id env))

  unfoldable pub version : State → ℕ
  version env = high_byte (e.func_id env)

  -- `Prepender::process`
  unfoldable pub prepend : List ℕ → State → List ℕ
  unfolding module_and_index version
  prepend value env =
      let (pallet, index) = module_and_index env in version env ∷ pallet ∷ index ∷ value

  -- `DecodesAs<Output, Weight, Error>`
  unfoldable pub decodes_as :
      {Output : Type 0} → (List ℕ → Option Output) → (ℕ → Weight) → DispatchError → Decoder e Output
  decodes_as output seal_return error = record {
    output = output;
    seal_return = seal_return;
    error = error;
    process = prepend;
  }

  -- `IdentifiedByFirstByteOfFunctionId<T>`
  unfoldable pub identified_by_first_byte : ℕ → State → Bool
  unfolding func_id
  identified_by_first_byte t env = func_id env == t

  -- `VersionedErrorConverter<E>::convert`: the conversions `TryFrom<(DispatchError, u8)>` and
  -- `Into<u32>` of the versioned error are arguments.
  unfoldable pub convert_error :
      {Error : Type 0}
      → (DispatchError → ℕ → Result DispatchError Error)
      → (Error → ℕ)
      → ErrorConverter e
  unfolding version
  convert_error try_from into error env = elim (try_from error (version env)) [
    | ok versioned ↦ ok (converging (into versioned))
    | err x ↦ err x
  ]

  -- `VersionedResultConverter<S, T>::try_convert`, with `TryFrom<(Source, u8)>` as an argument
  unfoldable pub try_convert :
      {Source Target : Type 0}
      → (Source → ℕ → Result DispatchError Target)
      → Source
      → State
      → Result DispatchError Target
  unfolding version
  try_convert try_from value env = try_from value (version env)
