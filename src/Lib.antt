-- ===== src/Lib.antt =====
-- The torrent node: it reads the blocks of a chain from servers or files, keeps the chain in memory,
-- and stores what it knows of blocks, transactions and addresses in a database of strings.
--
-- The parts, and the files that model them:
--   * src/utils/serialize.h, numbers and strings as bytes: Serialize.antt, with its laws in Serialize/.
--     Serialize/Cursor.antt holds the readers that move a position, which the codecs are made of.
--   * src/Address.h and src/Address.cpp: Address.antt. `address_lt` is `operator<`, `address_eq` is
--     `operator==`.
--   * src/BlockInfo.h and src/BlockInfo.cpp: BlockInfo/Records.antt has the structures,
--     BlockInfo/Codec.antt the codecs, BlockInfo/Status.antt the codec of `TransactionStatus` and
--     BlockInfo/Header.antt the methods of `BlockHeader`, and
--     BlockInfo/Transactions.antt those on transactions. `serialize_x` and `deserialize_x` are the
--     methods `serialize` and `deserialize` of the structure `X`.
--   * src/BlockChain.h and src/BlockChain.cpp: BlockChain.antt. A method that changes the chain is a
--     function to an `Exit`: how it ends and the chain that it leaves. `walk` is the loop of
--     `calcBlockchain`, `after_walk` what follows it, `renumber` the loop in that.
--   * src/Workers/NodeTestsBlockInfo.h and its .cpp: NodeTests/Records.antt has the structures,
--     NodeTests/Codec.antt and NodeTests/Lists.antt their methods. A `std::set` or `std::map` is a
--     sorted list, with the operations of Containers.antt.
--   * src/P2P/P2P.h, src/P2P/P2P.cpp, and the common part of src/P2P/P2P_Ips.cpp and
--     src/P2P/P2P_Graph.cpp: Peers.antt has the segments of a request and the checks on an answer,
--     Peers/Process.antt `P2P::process` as a step relation: its loop that pushes the segments, and
--     the threads, which run from the begin on. The queue of common_utils, which is bounded, is the
--     parameter `SegmentQueue`, what servers reply the parameter `Reply`.
--   * src/BlockSource/GetNewBlocksFromServers.cpp, the batches of headers of `getBlockHeader`:
--     Batches.antt.
--   * src/BlockSource/NetworkBlockSource.h and its .cpp: BlockSource.antt. `process` and `do_process`
--     are the methods, `load_blocks` and `verify_blocks` the two loops of `process`, `hand_on` is
--     `processAdvanced`. `GetNewBlocksFromServer` is the interface `Getter`, over a state that stands
--     for the servers and for what is loaded.
--   * src/BlockSource/FileBlockSource.h, its .cpp, and `getNextFile` of src/utils/FileSystem.cpp:
--     FileSource.antt. The file system is the parameter `Disk`. `process_file` is `process`.
--   * src/BlockchainRead.h and its .cpp: BlockRead.antt has the reads of numbers,
--     BlockRead/Fields.antt and BlockRead/Transaction.antt `readTransactionInfo`,
--     BlockRead/Block.antt the blocks in memory, and BlockRead/File.antt those in files. RapidJSON and
--     toHex are in the parameter `Libraries`.
--   * src/BlockchainUtils.cpp and src/PrivateKey.cpp: Keys.antt has the addresses of keys and the
--     hexadecimal numbers, Keys/BlockSignature.antt the bytes of a signed block, and
--     Keys/Signatures.antt its check. OpenSSL and libsecp256k1 are the parameter `Crypto`.
--   * src/utils/Heap.h and src/utils/Heap.cpp: Heap.antt.
--   * src/Cache/LocalCache.h and src/Cache/LocalCache.cpp: LocalCache.antt has `LocalCacheInternal`,
--     LocalCache/Infos.antt `LocalCacheTxs` and `LocalCacheTxsStatus`. `add_cached` is `addElement`.
--     LocalCache/Runs.antt has the calls that change a cache as data.
--   * src/Cache/Cache.h and src/Cache/Cache.cpp: Cache.antt. src/Workers/WorkerCache.cpp, the worker that
--     fills these caches: WorkerCache.antt; `work` is its loop over the blocks of the queue.
--   * src/utils/Graph.h and src/utils/Graph.cpp: Graph.antt.
-- Prelude.antt and Prelude/ hold what these share.
--
-- How the parts interact: the structures of BlockInfo are written with Serialize and hold an Address,
-- and the chain holds a BlockHeader for each block. The source of blocks checks the signed message of
-- a block by Keys and reads its bytes by BlockRead, which computes the addresses of senders by Keys and
-- fills the structures of BlockInfo. The cache of the addresses evicts what its Heap gives up.
--
-- Numbers are natural numbers: `size_t` and `uint64_t` stay below 2 ^ 64, and the code's additions
-- wrap there. An exception is a value, `err` in a `Result` and `thrown` in an `Exit`; `fault` and
-- `dangling` are what C++ leaves undefined. The loop of `calcBlockchain` runs on fuel, one round
-- more than the map has blocks, which is enough since each round numbers a block that had no number.
-- The loop of `readBlockTxs` runs on fuel, one round more than the block has bytes, which is enough
-- since each round moves on by a byte at least, unless a pointer is moved by a size of 2 ^ 63 or more.
-- Such a sum may wrap, so it is `fault`, which ends the loop. Addresses are below 2 ^ 63.
--
-- Not modelled: the mutexes, as each method is one step; the texts of exceptions; fromHex, toHex
-- and CHECK of the submodule common_utils, of which the first two are parameters; of the source of
-- blocks from servers the requests for dumps and `getExistingBlock`; of the caches the class
-- `LocalCache`, which loads a file of addresses by several threads; the making of signatures. The
-- other workers, the synchronisation and the keys of the database are not part of this library. The
-- server, its JSON, the calls of OpenSSL, LevelDB and libevent are glue.
pub mod Prelude
pub mod Serialize
pub mod Containers
pub mod Address
pub mod BlockInfo
pub mod BlockChain
pub mod NodeTests
pub mod Peers
pub mod Graph
pub mod Heap
pub mod Keys
pub mod BlockRead
pub mod BlockSource
pub mod FileSource
pub mod Cache
pub mod WorkerCache
pub mod LocalCache
pub mod Batches
