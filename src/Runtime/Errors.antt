-- ===== src/Runtime/Errors.antt =====
-- What a contract learns of a failed call (runtime/devnet/src/config/api/versioning.rs and
-- primitives/src/lib.rs).
use pop_node.Prelude.{ℕ, ◌<◌, ◌≡◌, refl, ◌↔◌, ok, Bool, true, false, if◌then◌else◌, ◌≢◌, ◌&&◌, ◌==◌}
use pop_node.Prelude.Bytes.{Bytes4}
use pop_node.Primitives.{Error, to_u32, from_u32, HasBytes}
use pop_node.Primitives.StatusCode.{from_u32-to_u32, to_u32-zero_iff}
use pop_node.Frame.{DispatchError, converging}
use pop_node.Extension.Environment.{Environment}
use pop_node.Api.Extension.{version, convert_error}
use pop_node.Runtime.Versioning.{
  v0_error, bytes_equal, contracts_index, decoding_failed_error, try_from_error, status_code,
}
use pop_node.Runtime.Config.{Host, dispatching}

-- The bytes of a module's error are bytes.
abbrev pub IsDispatchError : DispatchError → Type 0
IsDispatchError (DispatchError.module_error i error m) =
    (i < 256) × (error.byte0 < 256) × (error.byte1 < 256)
IsDispatchError _ = Unit {0}

abbrev pub IsOther : DispatchError → Type 0
IsOther (DispatchError.other m) = Unit {0}
IsOther _ = ⊥

-- The guard of the module errors.
abbrev index_of_contracts : ℕ → Bytes4 → Bool
index_of_contracts i error = i == contracts_index && bytes_equal error decoding_failed_error

chosen-HasBytes : (b : Bool) (x y : Error) → HasBytes x → HasBytes y → HasBytes (if b then x else y)
chosen-HasBytes true x y hx hy = hx
chosen-HasBytes false x y hx hy = hy

pub chosen_ne : (b : Bool) (x y z : Error) → x ≢ z → y ≢ z → (if b then x else y) ≢ z
chosen_ne true x y z hx hy = hx
chosen_ne false x y z hx hy = hy

pub v0_error-HasBytes : (x : DispatchError) → IsDispatchError x → HasBytes (v0_error x)
unfolding v0_error
v0_error-HasBytes (DispatchError.module_error i error m) h =
    chosen-HasBytes (index_of_contracts i error) Error.decoding_failed
      (Error.module_error i error.byte0 error.byte1) tt h
v0_error-HasBytes _ h = tt

pub v0_error-other : (x : DispatchError) → (v0_error x ≡ Error.other) ↔ IsOther x
unfolding v0_error
v0_error-other (DispatchError.other m) = (λ _. tt, λ _. refl)
v0_error-other (DispatchError.module_error i error m) = (
  λ p.
      chosen_ne (index_of_contracts i error) Error.decoding_failed
        (Error.module_error i error.byte0 error.byte1) Error.other
        (λ (q : Error.decoding_failed ≡ Error.other). cc)
        (λ (q : Error.module_error i error.byte0 error.byte1 ≡ Error.other). cc) p,
  λ x. absurd x,
)
v0_error-other _ = (λ p. absurd cc, λ x. absurd x)

module _ (e : Environment) {Other : Type 0} (h : Host e Other) where
  -- For version 0 every error of a dispatch, its bytes in range, is returned as a status code. A
  -- contract that reads the code back gets the error as version 0 names it; and the code is 0,
  -- which means success, exactly for `DispatchError::Other`.
  pub convert-version0 :
      (x : DispatchError) (s : e.State)
      → IsDispatchError x
      → version e s ≡ 0
      → (code : ℕ) × ((dispatching e h).convert x s ≡ ok (converging code))
        × (from_u32 code ≡ v0_error x)
        × ((code ≡ 0) ↔ IsOther x)
  unfolding dispatching convert_error try_from_error status_code
  convert-version0 x s b v =
      let bytes = v0_error-HasBytes x b in
      let (to, from) = to_u32-zero_iff (v0_error x) bytes in
      (
        to_u32 (v0_error x),
        rw (v, dispatching, convert_error) refl,
        from_u32-to_u32 (v0_error x) bytes,
        (λ z. (v0_error-other x).0 (to z), λ y. from ((v0_error-other x).1 y)),
      )
