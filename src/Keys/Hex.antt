-- ===== src/Keys/Hex.antt =====
-- The two forms in which src/BlockchainUtils.cpp returns the address of a key.
