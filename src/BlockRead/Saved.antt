-- ===== src/BlockRead/Saved.antt =====
-- The two overloads of `readNextBlockInfo` in src/BlockchainRead.cpp agree: the one for files, on a
-- block that `saveBlockToFileBinary` appended, and the one for buffers, on the bytes of the block.
use node_infrastructure_torr.Prelude.{
  ℕ, zero, suc, ◌+◌, ◌-◌, ◌%◌, ◌^◌, ◌≤◌, ◌<◌, ◌≡◌, refl, sym, ap, ◌∙◌, arith, Bool, false, Bytes,
  [], ◌∷◌, ◌++◌, append_assoc, some, ltb, le→leb, lt→ltb, length, length-append, take, drop,
  replicate, take_all, length-take, length-drop, drop-drop, take-append_left, drop-append_left, ok,
  ◌>>=◌, Result-cases, inl, inr,
}
use node_infrastructure_torr.BlockInfo.Records.{BlockHeader, BlockInfo}
use node_infrastructure_torr.BlockRead.{little_endian, load, read_int, read_bytes}
use node_infrastructure_torr.BlockRead.Transaction.{Libraries}
use node_infrastructure_torr.BlockRead.Block.{
  block_header_size, HeaderFields, read_header_fields, set_header, read_parts, set_parts,
  read_block_txs, read_next_block_info,
}
use node_infrastructure_torr.BlockRead.File.{
  native_bytes, read_at, save_block_to_file_binary, read_block_header_of, read_block_header,
  read_block_behind_header, read_next_block_info_of_file,
}
use node_infrastructure_torr.BlockRead.Bounds.{slice_ok}
use node_infrastructure_torr.BlockRead.Dumps.{
  saved, take-take, drop-saved, length-saved, drop-size, has_header-saved, header_buffer,
  read_at-part, little_endian-native_bytes,
}

read_int_inside :
    (size : ℕ) (raw : Bytes) (end_pos pos : ℕ)
    → size < 2 ^ 63
    → pos + size ≤ end_pos
    → end_pos ≤ length raw
    → read_int size raw end_pos pos ≡ ok (little_endian (take size (drop pos raw)), pos + size)
unfolding read_int load
read_int_inside size raw end_pos pos l h k =
    rw (lt→ltb size (2 ^ 63) l, le→leb (pos + size) end_pos h, slice_ok raw pos size (omega arith))
      refl

read_bytes_inside :
    (n : ℕ) (raw : Bytes) (end_pos pos : ℕ)
    → n < 2 ^ 63
    → pos + n ≤ end_pos
    → end_pos ≤ length raw
    → read_bytes n raw end_pos pos ≡ ok (take n (drop pos raw), pos + n)
unfolding read_bytes
read_bytes_inside n raw end_pos pos l h k =
    rw (lt→ltb n (2 ^ 63) l, le→leb (pos + n) end_pos h, slice_ok raw pos n (omega arith)) refl

-- The fields of a header, of the bytes from `begin` on.
abbrev fields_at : Bytes → ℕ → HeaderFields
fields_at raw begin = record {
  block_type = little_endian (take 8 (drop begin raw));
  timestamp = little_endian (take 8 (drop (begin + 8) raw));
  prev_hash = take 32 (drop (begin + 8 + 8) raw);
  txs_hash = take 32 (drop (begin + 8 + 8 + 32) raw);
}

read_header_fields_inside :
    (raw : Bytes) (begin : ℕ)
    → begin + 80 ≤ length raw
    → read_header_fields raw (length raw) begin ≡ ok (fields_at raw begin)
unfolding read_header_fields
read_header_fields_inside raw begin h =
    rw
      (
        read_int_inside 8 raw (length raw) begin (omega arith) (omega arith) (omega arith),
        read_int_inside 8 raw (length raw) (begin + 8) (omega arith) (omega arith) (omega arith),
        read_bytes_inside 32 raw (length raw) (begin + 8 + 8) (omega arith) (omega arith)
            (omega arith),
        read_bytes_inside 32 raw (length raw) (begin + 8 + 8 + 32) (omega arith) (omega arith)
            (omega arith),
      )
      refl

take-drop-take :
    (o k m : ℕ) (xs : Bytes) → o + k ≤ m → take k (drop o (take m xs)) ≡ take k (drop o xs)
take-drop-take zero k m xs h = take-take k m xs (omega arith)
take-drop-take (suc o) k zero xs h = absurd (omega arith)
take-drop-take (suc o) k (suc m) [] h = refl
take-drop-take (suc o) k (suc m) (x ∷ xs) h = take-drop-take o k m xs (omega arith)

module _ (file block after : Bytes) (long : 80 ≤ length block) where
  abbrev buffer : Bytes
  buffer = read_at (saved file block after) (length file) block_header_size

  -- The file from the size on, and what the buffer has behind it.
  abbrev behind_old : Bytes
  behind_old = drop (length file) (saved file block after) ++ replicate block_header_size 0

  behind_parts :
      behind_old
      ≡ native_bytes 8 (length block) ++ (block ++ (after ++ replicate block_header_size 0))
  behind_parts =
      rw
        (
          drop-saved file block after,
          append_assoc (native_bytes 8 (length block)) (block ++ after)
              (replicate block_header_size 0),
          append_assoc block after (replicate block_header_size 0),
        )
        refl

  length-buffer : length buffer ≡ 88
  unfolding read_at
  length-buffer = omega (
    arith,
    length-take 88 behind_old,
    length-append (drop (length file) (saved file block after)) (replicate block_header_size 0),
    length-drop (length file) (saved file block after),
    length-saved file block after,
  )

  -- The bytes behind the size are those of the block.
  buffer_behind : (o k : ℕ) → o + k ≤ 80 → take k (drop (8 + o) buffer) ≡ take k (drop o block)
  unfolding read_at
  buffer_behind o k h =
      let rest = after ++ replicate block_header_size 0 in
      let shifted : drop (8 + o) behind_old ≡ drop o block ++ rest =
        sym (drop-drop 8 o behind_old)
        ∙ ap (λ l. drop o (drop 8 l)) behind_parts
        ∙ ap (drop o) (drop-size file block after (block ++ rest))
        ∙ drop-append_left o block rest (omega arith) in
      take-drop-take (8 + o) k 88 behind_old (omega arith)
      ∙ ap (take k) shifted
      ∙ take-append_left k (drop o block) rest (omega (arith, length-drop o block))

  fields_eq : fields_at buffer 8 ≡ fields_at block 0
  fields_eq = λ i. record {
    block_type = little_endian (buffer_behind 0 8 (omega arith) i);
    timestamp = little_endian (buffer_behind 8 8 (omega arith) i);
    prev_hash = buffer_behind 16 32 (omega arith) i;
    txs_hash = buffer_behind 48 32 (omega arith) i;
  }

  module _ (libraries : Libraries) (short : length block < 2 ^ 63) where
    abbrev sized : BlockHeader → BlockHeader
    sized header =
        set_header libraries (fields_at block 0) (record header { block_size = length block })

    header_of_buffer :
        (header : BlockHeader) → read_block_header_of libraries buffer header ≡ ok (sized header)
    unfolding read_block_header_of
    header_of_buffer header =
        rw
          (
            read_int_inside 8 buffer (length buffer) 0 (omega arith) (omega (arith, length-buffer))
                (omega arith),
            read_header_fields_inside buffer 8 (omega (arith, length-buffer)),
            fields_eq,
            header_buffer file block after 88 (omega arith),
            little_endian-native_bytes 8 (length block) (omega arith),
          )
          refl

    header_of_file :
        (header : BlockHeader)
        → read_block_header libraries (saved file block after) (length file) header
          ≡ ok (
              some
                (sized (record header { file_pos = record header.file_pos { pos = length file } })))
    unfolding read_block_header
    header_of_file header =
        rw
          (
            has_header-saved file block after long,
            header_of_buffer
                (record header { file_pos = record header.file_pos { pos = length file } }),
          )
          refl

    fits : ltb (length (saved file block after) - length file) ((length block + 8) % 2 ^ 64) ≡ false
    fits = ground (arith, length-saved file block after)

    whole_block : read_at (saved file block after) (length file + 8) (length block) ≡ block
    whole_block =
        let e : length file + 8 ≡ length file + 8 + 0 = omega arith in
        rw e (read_at-part file block after 0 (length block) (omega arith))
        ∙ take_all (length block) block (omega arith)

    next_eq : length file + (length block + 8) % 2 ^ 64 ≡ length file + length block + 8
    next_eq = omega arith

    -- The header that the file has.
    abbrev file_header : BlockInfo → BlockHeader
    file_header bi =
        sized (record bi.header { file_pos = record bi.header.file_pos { pos = length file } })

    behind_header :
        (bi : BlockInfo) (dump : Bytes) (valid save : Bool) (begin_tx count_tx : ℕ)
        → read_block_behind_header libraries
            (saved file block after)
            (length file)
            bi
            dump
            valid
            save
            begin_tx
            count_tx
            (file_header bi)
          ≡ (do
            bi' ← read_next_block_info libraries block (length file) bi valid save begin_tx count_tx
            ok ((bi', block), length file + length block + 8))
    unfolding read_block_behind_header read_next_block_info read_block_txs set_header set_parts
    behind_header bi dump valid save begin_tx count_tx =
        rw
          (
            fits,
            lt→ltb (length block) (2 ^ 63) short,
            whole_block,
            read_header_fields_inside block 0 (omega arith),
          )
          (elim (Result-cases
            (read_parts libraries block (length file) save begin_tx count_tx valid bi.txs)) [
              | inl (parts, e) ↦ rw (e, next_eq) refl
              | inr (inl (x, e)) ↦ rw e refl
              | inr (inr e) ↦ rw e refl
            ])

    -- A block of 80 bytes or more, and shorter than 2 ^ 63, that was appended to a file is read from the
    -- old end of the file with the result that the reading of its bytes in memory has: the same block,
    -- the same exception, or the same undefined behaviour. Where it returns, the bytes are those of the
    -- block, and the position is behind it.
    pub read_next_block_info_of_file-save :
        (bi : BlockInfo) (dump : Bytes) (valid save : Bool) (begin_tx count_tx : ℕ)
        → read_next_block_info_of_file libraries
            (saved file block after)
            (save_block_to_file_binary file block).0
            bi
            dump
            valid
            save
            begin_tx
            count_tx
          ≡ (do
            bi' ← read_next_block_info libraries block (length file) bi valid save begin_tx count_tx
            ok ((bi', block), length file + length block + 8))
    unfolding read_next_block_info_of_file save_block_to_file_binary
    read_next_block_info_of_file-save bi dump valid save begin_tx count_tx =
        rw (header_of_file bi.header) (behind_header bi dump valid save begin_tx count_tx)
