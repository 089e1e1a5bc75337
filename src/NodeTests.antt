-- ===== src/NodeTests.antt =====
-- src/Workers/NodeTestsBlockInfo.h and src/Workers/NodeTestsBlockInfo.cpp: the results of the tests
-- of nodes, as the database holds them.
pub mod Records
pub mod Codec
pub mod Lists
