-- ===== src/BlockRead/Dumps.antt =====
-- Blocks that `saveBlockToFileBinary` of src/BlockchainRead.cpp appended to a file are read back from
-- it: their bytes, any part of these, and the block.
use native.Mathlib.Nat.{pow-suc}
use node_infrastructure_torr.Prelude.{
  ℕ, zero, suc, ◌+◌, ◌-◌, ◌/◌, ◌%◌, ◌^◌, ◌≤◌, ◌<◌, ◌≡◌, refl, sym, ap, ◌∙◌, min, arith, true, false,
  Bytes, [], ◌∷◌, ◌++◌, append_assoc, ltb, leb, if◌then◌else◌, length, length-append,
  length-append_three, take, drop, replicate, drop-append, take-append, length-drop, drop-drop,
  take-append_left, drop-append_left, lt→ltb, ok, ◌>>◌,
}
use node_infrastructure_torr.BlockRead.{little_endian}
use node_infrastructure_torr.BlockRead.Block.{block_header_size}
use node_infrastructure_torr.BlockRead.File.{
  native_bytes, read_at, save_block_to_file_binary, has_header, get_block_dump, check_allocation,
}

pub length-native_bytes : (size n : ℕ) → length (native_bytes size n) ≡ size
unfolding native_bytes
length-native_bytes zero n = refl
length-native_bytes (suc size) n = ap suc (length-native_bytes size (n / 256))

pub little_endian-native_bytes :
    (size n : ℕ) → n < 256 ^ size → little_endian (native_bytes size n) ≡ n
unfolding native_bytes little_endian
little_endian-native_bytes zero n h = omega arith
little_endian-native_bytes (suc size) n h = omega (
  arith,
  pow-suc 256 size,
  little_endian-native_bytes size (n / 256) (omega (arith, pow-suc 256 size)),
)

pub take-take : (n m : ℕ) (xs : Bytes) → n ≤ m → take n (take m xs) ≡ take n xs
take-take zero m xs h = refl
take-take (suc n) zero xs h = absurd (omega arith)
take-take (suc n) (suc m) [] h = refl
take-take (suc n) (suc m) (x ∷ xs) h = ap (◌∷◌ x) (take-take n m xs (omega arith))

module _ (file block after : Bytes) where
  -- The file behind the block may grow.
  abbrev pub saved : Bytes
  saved = (save_block_to_file_binary file block).1 ++ after

  -- What is behind the old end of the file.
  pub drop-saved : drop (length file) saved ≡ native_bytes 8 (length block) ++ (block ++ after)
  unfolding save_block_to_file_binary
  drop-saved =
      rw
        (
          append_assoc file (native_bytes 8 (length block) ++ block) after,
          drop-append file ((native_bytes 8 (length block) ++ block) ++ after),
        )
        (append_assoc (native_bytes 8 (length block)) block after)

  pub length-saved : length saved ≡ length file + 8 + length block + length after
  unfolding save_block_to_file_binary
  length-saved = omega (
    arith,
    length-append (file ++ (native_bytes 8 (length block) ++ block)) after,
    length-append_three file (native_bytes 8 (length block)) block,
    length-native_bytes 8 (length block),
  )

  -- The bytes of the size, and those behind them.
  pub take-size :
      (rest : Bytes)
      → take 8 (native_bytes 8 (length block) ++ rest) ≡ native_bytes 8 (length block)
  take-size rest =
      rw (length-native_bytes 8 (length block)) at
        (take-append (native_bytes 8 (length block)) rest)

  pub drop-size : (rest : Bytes) → drop 8 (native_bytes 8 (length block) ++ rest) ≡ rest
  drop-size rest =
      rw (length-native_bytes 8 (length block)) at
        (drop-append (native_bytes 8 (length block)) rest)

  pub has_header-saved : 80 ≤ length block → has_header saved (length file) ≡ true
  unfolding has_header
  has_header-saved h = ground (arith, length-saved)

  -- The buffer of the header begins with the size.
  pub header_buffer :
      (n : ℕ) → 8 ≤ n → take 8 (read_at saved (length file) n) ≡ native_bytes 8 (length block)
  unfolding read_at
  header_buffer n h =
      take-take 8 n (drop (length file) saved ++ replicate n 0) h
      ∙ rw
          (
            drop-saved,
            append_assoc (native_bytes 8 (length block)) (block ++ after) (replicate n 0),
          )
          (take-size _)

  -- A part of the block, read from the file.
  pub read_at-part :
      (from n : ℕ)
      → from + n ≤ length block
      → read_at saved (length file + 8 + from) n ≡ take n (drop from block)
  unfolding read_at
  read_at-part from n h =
      let behind : drop (length file + 8 + from) saved ≡ drop from block ++ after =
        sym (drop-drop (length file + 8) from saved)
        ∙ ap (drop from) (
            sym (drop-drop (length file) 8 saved)
            ∙ ap (drop 8) drop-saved
            ∙ drop-size (block ++ after))
        ∙ drop-append_left from block after (omega arith) in
      rw (behind, append_assoc (drop from block) after (replicate n 0))
        (take-append_left n (drop from block) (after ++ replicate n 0)
          (omega (arith, length-drop from block)))

  size_of_header :
      length block < 2 ^ 64
      → little_endian (take 8 (read_at saved (length file) block_header_size)) ≡ length block
  size_of_header h =
      ap little_endian (header_buffer 88 (omega arith))
      ∙ little_endian-native_bytes 8 (length block) (omega arith)

  dump_part :
      (from size n : ℕ)
      → size ≡ n
      → n < 2 ^ 63
      → from + n ≤ length block
      → ◌>>◌ {B = ℕ × Bytes}
          (check_allocation size)
          (ok (length block, read_at saved (length file + 8 + from) size))
        ≡ ok (length block, take n (drop from block))
  dump_part from size n e h k = rw (e, lt→ltb n (2 ^ 63) h, read_at-part from n k) refl

  cut_to : (to : ℕ) → (if ltb (length block) to then length block else to) ≡ min to (length block)
  cut_to to = ground arith

  -- Of a block that was appended to a file, of 80 bytes or more and shorter than 2 ^ 63,
  -- `getBlockDump` at the old end of the file returns the size and the bytes from the first asked
  -- for to the last, or to the last of the block, where it has the first and the last is not before
  -- it, whatever was appended to the file since.
  pub get_block_dump-save :
      (from to : ℕ)
      → 80 ≤ length block
      → length block < 2 ^ 63
      → from < length block
      → from ≤ to
      → get_block_dump saved (save_block_to_file_binary file block).0 from to
        ≡ ok (length block, take (min to (length block) - from) (drop from block))
  unfolding get_block_dump save_block_to_file_binary
  get_block_dump-save from to h k l m =
      let to' = min to (length block) in
      let starts : leb (length block) from ≡ false = ground arith in
      rw (has_header-saved h, size_of_header (omega arith), cut_to to, starts)
        (dump_part from ((to' + 2 ^ 64 - from) % 2 ^ 64) (to' - from) (omega arith) (omega arith)
          (omega arith))
