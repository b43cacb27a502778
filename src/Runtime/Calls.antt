-- ===== src/Runtime/Calls.antt =====
-- runtime/devnet/src/lib.rs and config/api/mod.rs: the calls and reads that the chain extension can
-- be handed. The calls of the pallets whose calls no filter names are one parameter, `Other`, with
-- their decoders.
use pop_node.Prelude.{ℕ, ◌==◌, if◌then◌else◌, List}
use pop_node.Frame.{Weight}
use pop_node.Api.Codec.{Reader, pure, ◌>>=◌, Scale}
use pop_node.Api.Fungibles.Types.{Call, Read, ReadResult, Assets, WeightInfo}
use pop_node.Api.Fungibles.Codec.{index, invalid, decode_call, decode_read}
use pop_node.Api.Fungibles.Reads.{encode, weight, read}

-- The calls of pallet-balances that the base filter names, and its others.
pub data BalancesCall (Other : Type 0) : Type 0 where
  force_adjust_total_issuance force_set_balance force_transfer force_unreserve : BalancesCall Other
  permitted : Other → BalancesCall Other

pub data RuntimeCall (Other : Type 0) : Type 0 where
  fungibles : Call → RuntimeCall Other
  balances : BalancesCall Other → RuntimeCall Other
  elsewhere : Other → RuntimeCall Other

-- `RuntimeRead`
pub data RuntimeRead : Type 0 where
  fungibles : Read → RuntimeRead

-- `RuntimeResult`
pub data RuntimeResult : Type 0 where
  fungibles : ReadResult → RuntimeResult

-- `RuntimeRead::weight`
unfoldable pub runtime_weight : WeightInfo → RuntimeRead → Weight
runtime_weight w (RuntimeRead.fungibles key) = weight w key

-- `RuntimeRead::read`
unfoldable pub runtime_read : (a : Assets) → RuntimeRead → a.State → RuntimeResult
runtime_read a (RuntimeRead.fungibles key) s = RuntimeResult.fungibles (read a key s)

-- `RuntimeResult::encode`
unfoldable pub encode_result : Scale → RuntimeResult → List ℕ
encode_result c (RuntimeResult.fungibles result) = encode c result

-- The index of the fungibles pallet in the runtime.
abbrev pub fungibles_index : ℕ
fungibles_index = 150

-- `RuntimeCall::decode`: the pallet's index byte, then its call. `others` decodes the calls of the
-- other pallets, given their index.
unfoldable pub decode_runtime_call :
    {Other : Type 0} → Scale → (ℕ → Reader (RuntimeCall Other)) → Reader (RuntimeCall Other)
decode_runtime_call c others = do
  i ← index
  if i == fungibles_index
      then (do call ← decode_call c; pure (RuntimeCall.fungibles call))
      else others i

-- `RuntimeRead::decode`
unfoldable pub decode_runtime_read : Scale → Reader RuntimeRead
decode_runtime_read c = do
  i ← index
  if i == fungibles_index
      then (do read ← decode_read c; pure (RuntimeRead.fungibles read))
      else invalid
