-- ===== src/BlockInfo.antt =====
-- src/BlockInfo.h and src/BlockInfo.cpp.
pub mod Records
pub mod Codec
pub mod Header
pub mod Status
pub mod Transactions
