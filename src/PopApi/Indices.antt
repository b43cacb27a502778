-- ===== src/PopApi/Indices.antt =====
-- pop-api/src/v0/fungibles/mod.rs: the indices of the dispatchable functions and of the reads
-- (`constants`).
use pop_node.Prelude.{ℕ}

abbrev pub total_supply_index : ℕ
total_supply_index = 0

abbrev pub balance_of_index : ℕ
balance_of_index = 1

abbrev pub allowance_index : ℕ
allowance_index = 2

abbrev pub transfer_index : ℕ
transfer_index = 3

abbrev pub transfer_from_index : ℕ
transfer_from_index = 4

abbrev pub approve_index : ℕ
approve_index = 5

abbrev pub increase_allowance_index : ℕ
increase_allowance_index = 6

abbrev pub decrease_allowance_index : ℕ
decrease_allowance_index = 7

abbrev pub token_name_index : ℕ
token_name_index = 8

abbrev pub token_symbol_index : ℕ
token_symbol_index = 9

abbrev pub token_decimals_index : ℕ
token_decimals_index = 10

abbrev pub create_index : ℕ
create_index = 11

abbrev pub start_destroy_index : ℕ
start_destroy_index = 12

abbrev pub set_metadata_index : ℕ
set_metadata_index = 16

abbrev pub clear_metadata_index : ℕ
clear_metadata_index = 17

abbrev pub token_exists_index : ℕ
token_exists_index = 18

abbrev pub mint_index : ℕ
mint_index = 19

abbrev pub burn_index : ℕ
burn_index = 20
