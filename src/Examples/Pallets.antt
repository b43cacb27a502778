-- ===== src/Examples/Pallets.antt =====
-- How a contract reads the errors of the pallets (runtime/devnet/src/lib.rs).
