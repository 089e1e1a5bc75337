-- ===== src/FileSource/Tests.antt =====
-- A run of `FileBlockSource` on a folder with one file of blocks.
use node_infrastructure_torr.Prelude.{
  ◌≡◌, refl, arith, true, find, Bytes, bytes_eq, codes, List, [], ◌∷◌, ◌++◌, none, some,
  if◌then◌else◌, length, replicate, suc,
}
use node_infrastructure_torr.Containers.{insert}
use node_infrastructure_torr.BlockInfo.Records.{FilePosition, BlockInfo}
use node_infrastructure_torr.BlockChain.{new_header}
use node_infrastructure_torr.BlockRead.Transaction.{Libraries}
use node_infrastructure_torr.BlockRead.File.{native_bytes}
use node_infrastructure_torr.FileSource.{Disk, FileBlockSource, block_files, next_of, get_next_file}
use node_infrastructure_torr.FileSource.Reading.{
  written, parse_all, drain_files, drain_files-appended,
}

abbrev toy : Libraries
toy = record {
  crypto = record {
    sha256 = λ d. replicate 32 0;
    ripemd160 = λ d. replicate 20 0;
    d2i_pubkey = λ k. some k;
    d2i_ecdsa_sig = λ s. some s;
    ecdsa_do_verify = λ h s k. bytes_eq h s;
    secp_uncompressed = λ k. some k;
  };
  parse_json = λ d. none;
  unset_value = 0;
  to_hex = λ d. d;
}

-- Two blocks of a header and no transaction.
abbrev blocks : List Bytes
blocks = (replicate 80 3 ++ (0 ∷ [])) ∷ (replicate 80 4 ++ (0 ∷ [])) ∷ []

-- What the file had when it was read before.
abbrev known : Bytes
known = 1 ∷ 2 ∷ []

abbrev one_file : Disk
one_file = record {
  listed = codes "notes" ∷ codes "1.blk" ∷ [];
  cropped = λ name. if bytes_eq name (codes "folder/1.blk") then codes "1.blk" else name;
  path = λ name. codes "folder/" ++ name;
  content = λ path. if bytes_eq path (codes "folder/1.blk") then known ++ written blocks else [];
}

abbrev position : FilePosition
position = record { file_name = codes "folder/1.blk"; pos = 2 }

abbrev closed : FileBlockSource
closed = record {
  all_files = (codes "1.blk", record { file_pos = position }) ∷ [];
  curr_pos = 0;
  file_name = [];
}

next_position : get_next_file one_file closed.all_files ≡ position
unfolding get_next_file block_files next_of insert native_bytes bytes_eq find
next_position = refl

file_content : one_file.content position.file_name ≡ known ++ written blocks
unfolding bytes_eq
file_content = refl

abbrev empty_block : BlockInfo
empty_block = record { header = new_header; txs = [] }

drain_files-appended_example :
    drain_files one_file toy true empty_block (suc (length blocks)) closed
    ≡ some (parse_all one_file toy true empty_block position.file_name (length known) blocks)
drain_files-appended_example =
    drain_files-appended one_file toy true empty_block blocks closed position.file_name known refl
      next_position refl file_content ((omega arith, omega arith), ((omega arith, omega arith), tt))
