-- ===== src/Examples/Machine.antt =====
-- An environment: a call of the chain extension with its identifiers and its input, on a meter, with a
-- number in the place of the chain's state.
use pop_node.Prelude.{ℕ, ◌-◌, ◌≤◌, ◌≡◌, refl, arith, List, [], length, ok}
use pop_node.Frame.{Weight, add_weight}
use pop_node.Extension.Environment.{Environment}
use pop_node.Extension.Weights.{Meter}
use pop_node.Extension.Filtering.{KeepsChain}

pub record Machine : Type 0 where
  pub func_id : ℕ
  pub ext_id : ℕ
  pub input : List ℕ
  pub used : Weight
  pub output : List ℕ
  pub chain : ℕ

abbrev pub weight : ℕ → Weight
weight n = record { ref_time = n; proof_size = n }

abbrev subtract : Weight → Weight → Weight
subtract a b = record {
  ref_time = a.ref_time - b.ref_time;
  proof_size = a.proof_size - b.proof_size;
}

abbrev pub machine : Environment
machine = record {
  State = Machine;
  ChargedAmount = Weight;
  func_id = λ s. s.func_id;
  ext_id = λ s. s.ext_id;
  charge_weight = λ w s. (ok w, record s { used = add_weight s.used w });
  adjust_weight = λ c w s. record s { used = add_weight (subtract s.used c) w };
  address = λ s. 9;
  in_len = λ s. length s.input;
  read = λ n s. ok s.input;
  write = λ bytes skip w s. (ok tt, record s { output = bytes });
}

pub adjust_replaces :
    (w actual : Weight) (s t : Machine) (c : Weight)
    → (machine.charge_weight w s).0 ≡ ok c
    → actual.ref_time ≤ w.ref_time
    → actual.proof_size ≤ w.proof_size
    → w.ref_time ≤ t.used.ref_time
    → w.proof_size ≤ t.used.proof_size
    → add_weight (machine.adjust_weight c actual t).used w ≡ add_weight t.used actual
adjust_replaces w actual s t c p ha hb hc hd = ground (arith, p)

abbrev pub meter : Meter machine
meter = record {
  spent = λ s. s.used;
  charge_spends = λ w s c p. refl;
  write_spends = λ bytes skip s. refl;
  adjust_spends = adjust_replaces;
}

abbrev pub keeps : KeepsChain machine (λ s. s.chain)
keeps = record {
  charge_keeps = λ w s. refl;
  adjust_keeps = λ c w s. refl;
  write_keeps = λ bytes skip w s. refl;
}

-- A call with function identifier, extension identifier and input.
abbrev pub started : ℕ → ℕ → List ℕ → Machine
started func ext input = record {
  func_id = func;
  ext_id = ext;
  input = input;
  used = weight 0;
  output = [];
  chain = 0;
}
