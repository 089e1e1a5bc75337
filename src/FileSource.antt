-- ===== src/FileSource.antt =====
-- Blocks from files: `FileBlockSource` of src/BlockSource/FileBlockSource.h and its .cpp, and
-- `getNextFile` of src/utils/FileSystem.cpp. The file system is the parameter `Disk`: what stands in
-- the folder while a method runs. A file of the folder can be opened.
pub mod Reading
mod Tests
use node_infrastructure_torr.Prelude.{
  ℕ, Bool, true, false, not, ◌&&◌, ◌||◌, Bytes, codes, is_empty, List, [], ◌∷◌, Option, none, some,
  map, ltb, ◌==◌, if◌then◌else◌, length, Map, find, assign, Result, ok, err, ◌>>=◌, ◌>>◌, check,
  empty_name, not_set, ups,
}
use node_infrastructure_torr.Containers.{insert}
use node_infrastructure_torr.Address.{bytes_lt}
use node_infrastructure_torr.BlockInfo.Records.{
  FilePosition, FileInfo, TransactionInfo, BlockHeader, BlockInfo,
}
use node_infrastructure_torr.BlockRead.Transaction.{Libraries}
use node_infrastructure_torr.BlockRead.File.{read_next_block_info_of_file}

pub record Disk : Type 0 where
  -- The names that the iterator of the folder gives.
  pub listed : List Bytes
  -- CroppedFileName(path).str()
  pub cropped : Bytes → Bytes
  -- The path of a name in the folder.
  pub path : Bytes → Bytes
  -- The bytes of the file with a path.
  pub content : Bytes → Bytes

pub record FileBlockSource : Type 0 where
  pub all_files : Map FileInfo
  pub curr_pos : ℕ
  pub file_name : Bytes

abbrev starts_with : Bytes → Bytes → Bool
starts_with [] s = true
starts_with (a ∷ p) [] = false
starts_with (a ∷ p) (b ∷ s) = a == b && starts_with p s

-- str.find(p) != str.npos
abbrev contains : Bytes → Bytes → Bool
contains p [] = starts_with p []
contains p (b ∷ s) = starts_with p (b ∷ s) || contains p s

-- The set of the names with ".blk".
unfoldable pub block_files : (Bytes → Bytes) → List Bytes → List Bytes
block_files cropped [] = []
block_files cropped (name ∷ rest) =
    let files = block_files cropped rest in
    if contains (codes ".blk") (cropped name) then insert bytes_lt (cropped name) files else files

module _ (disk : Disk) where
  open disk use {listed, cropped, path, content}

  -- The loop of `getNextFile` over the set.
  unfoldable pub next_of : Map FileInfo → List Bytes → FilePosition
  next_of processed [] = record { file_name = []; pos = 0 }
  next_of processed (file ∷ rest) =
      let later = next_of processed rest in
      elim (find file processed) [
        | none ↦ record { file_name = path file; pos = 0 }
        | some info ↦
            if ltb info.file_pos.pos (length (content (path file))) then info.file_pos else later
      ]

  unfoldable pub get_next_file : Map FileInfo → FilePosition
  get_next_file processed = next_of processed (block_files cropped listed)

  -- The first part of `process`: the source with an open file, or nothing where there is none.
  unfoldable pub open_next : FileBlockSource → Option FileBlockSource
  open_next s =
      let file_pos = get_next_file s.all_files in
      if is_empty s.file_name
      then if is_empty file_pos.file_name
        then none
        else some (record s { file_name = file_pos.file_name; curr_pos = file_pos.pos })
      else some s

-- The loop that sets the name of the file, and that of the header.
unfoldable pub name_file : Bytes → BlockInfo → BlockInfo
name_file file_name bi = record {
  header = record bi.header { file_pos = record bi.header.file_pos { file_name = file_name } };
  txs =
      map
        (λ (tx : TransactionInfo). record tx {
          file_pos = record tx.file_pos { file_name = file_name };
        })
        bi.txs;
}

-- tx.blockNumber = bh.blockNumber.value(), of each transaction
unfoldable pub number_txs : Option ℕ → List TransactionInfo → Result (List TransactionInfo)
number_txs none [] = ok []
number_txs none (tx ∷ rest) = err not_set
number_txs (some n) txs = ok (map (λ (tx : TransactionInfo). record tx { block_number = n }) txs)

module _ (disk : Disk) (libraries : Libraries) (is_validate : Bool) where
  open disk use {cropped, content}

  -- The rest of `process`, behind the read that moved the position to `next`.
  unfoldable pub advance :
      FileBlockSource → ((BlockInfo × Bytes) × ℕ) → (Bool × (BlockInfo × Bytes)) × FileBlockSource
  advance s ((bi, dump), next) =
      if s.curr_pos == next then ((false, (bi, dump)), record s { file_name = [] }) else (
        (true, (name_file s.file_name bi, dump)),
        record s {
          curr_pos = next;
          all_files =
              assign (cropped s.file_name)
                (record { file_pos = record { file_name = s.file_name; pos = next } }) s.all_files;
        },
      )

  unfoldable pub read_open :
      FileBlockSource → BlockInfo → Bytes → Result ((Bool × (BlockInfo × Bytes)) × FileBlockSource)
  read_open s bi dump = do
    r ←
        read_next_block_info_of_file libraries (content s.file_name) s.curr_pos bi dump is_validate
          false 0 0
    ok (advance s r)

  -- process(bi, binaryDump): what it returns, the block and bytes, and the source behind it
  unfoldable pub process_file :
      FileBlockSource → BlockInfo → Bytes → Result ((Bool × (BlockInfo × Bytes)) × FileBlockSource)
  process_file s bi dump = elim (open_next disk s) [
    | none ↦ ok ((false, (bi, dump)), s)
    | some s' ↦ read_open s' bi dump
  ]

  -- getExistingBlockS(bh, bi, blockDump, isValidate)
  unfoldable pub get_existing_block : BlockHeader → BlockInfo → Bytes → Result (BlockInfo × Bytes)
  get_existing_block bh bi dump = do
    check (not (is_empty bh.file_pos.file_name)) empty_name
    ((bi', dump'), next) ←
        read_next_block_info_of_file libraries (content bh.file_pos.file_name) bh.file_pos.pos bi
          dump is_validate false 0 0
    check (not (next == bh.file_pos.pos)) ups
    let named = name_file bh.file_pos.file_name bi'
    txs ← number_txs bh.block_number named.txs
    ok (
      record { header = record named.header { block_number = bh.block_number }; txs = txs },
      dump',
    )
