-- ===== src/FileSource/Reading.antt =====
-- The calls of `FileBlockSource::process` one after the other, on a file to which
-- `saveBlockToFileBinary` appended block after block.
use node_infrastructure_torr.Prelude.{
  ℕ, zero, suc, ◌+◌, ◌^◌, ◌≤◌, ◌<◌, ◌≡◌, refl, sym, ap, ◌∙◌, arith, Bool, true, false, Bytes,
  is_empty, List, [], ◌∷◌, ◌++◌, append-nil, append_assoc, Option, none, some, ◌==◌, All, assign,
  length, length-append, Result, ok, err, fault, ◌>>=◌, Result-cases, inl, inr,
}
use node_infrastructure_torr.BlockInfo.Records.{BlockInfo}
use node_infrastructure_torr.BlockRead.Transaction.{Libraries}
use node_infrastructure_torr.BlockRead.Block.{read_next_block_info}
use node_infrastructure_torr.BlockRead.File.{
  native_bytes, save_block_to_file_binary, has_header, read_block_header,
  read_next_block_info_of_file,
}
use node_infrastructure_torr.BlockRead.Dumps.{length-native_bytes}
use node_infrastructure_torr.BlockRead.Saved.{read_next_block_info_of_file-save}
use node_infrastructure_torr.FileSource.{
  Disk, FileBlockSource, get_next_file, open_next, name_file, advance, read_open, process_file,
}

-- A block as `saveBlockToFileBinary` writes it, and blocks one after the other.
abbrev entry : Bytes → Bytes
entry block = native_bytes 8 (length block) ++ block

abbrev pub written : List Bytes → Bytes
written [] = []
written (block ∷ rest) = entry block ++ written rest

-- A block of a file has a header, and a size that a string can have.
abbrev pub IsStored : Bytes → Type 0
IsStored block = (80 ≤ length block) × (length block < 2 ^ 63)

module _ (disk : Disk) (libraries : Libraries) (is_validate : Bool) (new_block : BlockInfo) where
  -- The blocks behind each other in memory, from the position `pos` of the file `name` on.
  unfoldable pub parse_all : Bytes → ℕ → List Bytes → Result (List (BlockInfo × Bytes))
  parse_all name pos [] = ok []
  parse_all name pos (block ∷ rest) = do
    bi ← read_next_block_info libraries block pos new_block is_validate false 0 0
    later ← parse_all name (pos + length block + 8) rest
    ok ((name_file name bi, block) ∷ later)

  abbrev and_then :
      BlockInfo × Bytes
      → Option (Result (List (BlockInfo × Bytes)))
      → Option (Result (List (BlockInfo × Bytes)))
  and_then x none = none
  and_then x (some r) = some (do later ← r; ok (x ∷ later))

  abbrev behind :
      (FileBlockSource → Option (Result (List (BlockInfo × Bytes))))
      → Result ((Bool × (BlockInfo × Bytes)) × FileBlockSource)
      → Option (Result (List (BlockInfo × Bytes)))
  behind next (ok ((true, x), s)) = and_then x (next s)
  behind next (ok ((false, x), s)) = some (ok [])
  behind next (err e) = some (err e)
  behind next fault = some fault

  -- The blocks that `process` returns until it returns false, or throws, or is undefined; nothing if
  -- it does none of that within `fuel` calls.
  unfoldable pub drain_files : ℕ → FileBlockSource → Option (Result (List (BlockInfo × Bytes)))
  drain_files zero s = none
  drain_files (suc fuel) s =
      behind (drain_files fuel) (process_file disk libraries is_validate s new_block [])

  open_there : (s : FileBlockSource) → is_empty s.file_name ≡ false → open_next disk s ≡ some s
  unfolding open_next
  open_there s h = rw h refl

  process_open :
      (s : FileBlockSource)
      → is_empty s.file_name ≡ false
      → process_file disk libraries is_validate s new_block []
        ≡ read_open disk libraries is_validate s new_block []
  unfolding process_file
  process_open s h = rw (open_there s h, process_file) refl

  drain_open :
      (fuel : ℕ) (s : FileBlockSource)
      → is_empty s.file_name ≡ false
      → drain_files (suc fuel) s
        ≡ behind (drain_files fuel) (read_open disk libraries is_validate s new_block [])
  unfolding drain_files
  drain_open fuel s h = ap (behind (drain_files fuel)) (process_open s h)

  -- At the end of the file.
  no_header : (before : Bytes) → has_header before (length before) ≡ false
  unfolding has_header
  no_header before = ground arith

  at_end :
      (s : FileBlockSource) (before : Bytes)
      → disk.content s.file_name ≡ before
      → s.curr_pos ≡ length before
      → read_open disk libraries is_validate s new_block []
        ≡ ok ((false, (new_block, [])), record s { file_name = [] })
  unfolding read_open read_next_block_info_of_file read_block_header advance
  at_end s before e p = rw (e, p, no_header before) (ground arith)

  -- The source behind a block that ends at `next`.
  abbrev moved : FileBlockSource → ℕ → FileBlockSource
  moved s next = record s {
    curr_pos = next;
    all_files =
        assign (disk.cropped s.file_name)
          (record { file_pos = record { file_name = s.file_name; pos = next } }) s.all_files;
  }

  advance-moved :
      (s : FileBlockSource) (bi : BlockInfo) (dump : Bytes) (next : ℕ)
      → s.curr_pos < next
      → advance disk libraries is_validate s ((bi, dump), next)
        ≡ ((true, (name_file s.file_name bi, dump)), moved s next)
  unfolding advance
  advance-moved s bi dump next h = let e : (s.curr_pos == next) ≡ false = ground arith in rw e refl

  read_stored :
      (s : FileBlockSource) (before block after : Bytes)
      → disk.content s.file_name ≡ before ++ (entry block ++ after)
      → s.curr_pos ≡ length before
      → IsStored block
      → read_open disk libraries is_validate s new_block [] ≡ (do
        bi ← read_next_block_info libraries block (length before) new_block is_validate false 0 0
        ok ((true, (name_file s.file_name bi, block)), moved s (length before + length block + 8)))
  unfolding read_open save_block_to_file_binary
  read_stored s before block after e p (long, short) =
      let e' : disk.content s.file_name ≡ (save_block_to_file_binary before block).1 ++ after =
        e ∙ sym (append_assoc before (entry block) after) in
      rw
        (
          e',
          p,
          read_next_block_info_of_file-save before block after long libraries short new_block []
              is_validate false 0 0,
        )
        (elim (Result-cases
          (read_next_block_info libraries block (length before) new_block is_validate false 0 0)) [
            | inl (bi, f) ↦
                rw
                  (
                    f,
                    advance-moved (record s { curr_pos = length before }) bi block
                        (length before + length block + 8) (omega arith),
                  )
                  refl
            | inr (inl (x, f)) ↦ rw f refl
            | inr (inr f) ↦ rw f refl
          ])

  -- The rest of the calls, behind a block that was read.
  drain_step :
      (fuel : ℕ) (s : FileBlockSource) (block : Bytes) (next : ℕ) (r : Result BlockInfo)
      (later : Result (List (BlockInfo × Bytes)))
      → drain_files fuel (moved s next) ≡ some later
      → behind
          (drain_files fuel)
          (do bi ← r; ok ((true, (name_file s.file_name bi, block)), moved s next))
        ≡ some (do bi ← r; rest ← later; ok ((name_file s.file_name bi, block) ∷ rest))
  drain_step fuel s block next (ok bi) later h = rw h refl
  drain_step fuel s block next (err e) later h = refl
  drain_step fuel s block next fault later h = refl

  drain_loop :
      (blocks : List Bytes) (s : FileBlockSource) (before : Bytes)
      → is_empty s.file_name ≡ false
      → disk.content s.file_name ≡ before ++ written blocks
      → s.curr_pos ≡ length before
      → All IsStored blocks
      → drain_files (suc (length blocks)) s ≡ some (parse_all s.file_name (length before) blocks)
  unfolding parse_all
  drain_loop [] s before h e p stored =
      drain_open 0 s h ∙ ap (behind (drain_files 0)) (at_end s before (e ∙ append-nil before) p)
  drain_loop (block ∷ rest) s before h e p ((long, short), stored) =
      let next = length before + length block + 8 in
      let before' = before ++ entry block in
      let behind_entry : next ≡ length before' = omega (
        arith,
        length-append before (entry block),
        length-append (native_bytes 8 (length block)) block,
        length-native_bytes 8 (length block),
      ) in
      let ih =
        drain_loop rest (moved s next) before' h
          (e ∙ sym (append_assoc before (entry block) (written rest))) behind_entry stored in
      drain_open (suc (length rest)) s h
      ∙ ap (behind (drain_files (suc (length rest))))
          (read_stored s before block (written rest) e p (long, short))
      ∙ drain_step (suc (length rest)) s block next _ _
          (ih ∙ ap (λ n. some (parse_all s.file_name n rest)) (sym behind_entry))

  process_closed :
      (s : FileBlockSource) (name : Bytes) (pos : ℕ)
      → is_empty s.file_name ≡ true
      → get_next_file disk s.all_files ≡ record { file_name = name; pos = pos }
      → is_empty name ≡ false
      → process_file disk libraries is_validate s new_block []
        ≡ process_file disk libraries is_validate
            (record s { file_name = name; curr_pos = pos })
            new_block
            []
  unfolding process_file open_next
  process_closed s name pos closed next named =
      rw (closed, process_file, open_next, next, named) refl

  -- From a source with no open file, to which `getNextFile` gives a file and its end at that time,
  -- where blocks of 80 bytes or more, and shorter than 2 ^ 63, were appended to the file since: the
  -- calls of `process` return what the reading of the bytes of these blocks in memory does, block by
  -- block, with the name of the file, until the call behind the last block returns false; or they
  -- end with the first exception or undefined behaviour of that.
  pub drain_files-appended :
      (blocks : List Bytes) (s : FileBlockSource) (name before : Bytes)
      → is_empty s.file_name ≡ true
      → get_next_file disk s.all_files ≡ record { file_name = name; pos = length before }
      → is_empty name ≡ false
      → disk.content name ≡ before ++ written blocks
      → All IsStored blocks
      → drain_files (suc (length blocks)) s ≡ some (parse_all name (length before) blocks)
  unfolding drain_files
  drain_files-appended blocks s name before closed next named e stored =
      ap (behind (drain_files (length blocks)))
        (process_closed s name (length before) closed next named)
      ∙ drain_loop blocks (record s { file_name = name; curr_pos = length before }) before named e
          refl stored
