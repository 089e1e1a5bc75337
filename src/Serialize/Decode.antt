-- ===== src/Serialize/Decode.antt =====
-- The decoders of src/utils/serialize.h on every input, and the value of a row of digits.
use native.Mathlib.Nat.{pow-suc, mod-lt, mod-eq_of_lt}
use node_infrastructure_torr.Prelude.{
  ℕ, zero, suc, ◌+◌, ◌*◌, ◌/◌, ◌%◌, ◌^◌, ◌≤◌, ◌<◌, ◌≡◌, refl, ◌∙◌, ◌⊎◌, inl, inr, arith, Bytes, [],
  ◌∷◌, ◌++◌, append_assoc, length, length-append, get_elem?-append, get_elem?_inside, Bool-cases,
  ok, err, incorrect_raw, ltb,
}
use node_infrastructure_torr.Serialize.{char_at, read_loop, deserialize_int}
use node_infrastructure_torr.Serialize.Encode.{big_endian}

abbrev push_digit : ℕ → ℕ → ℕ → ℕ
push_digit size val d = (val * 256 % 256 ^ size + d) % 256 ^ size

-- The digits read into a number of `size` bytes that holds `val`.
pub digits_value : ℕ → ℕ → Bytes → ℕ
digits_value size val [] = val
digits_value size val (d ∷ ds) = digits_value size (push_digit size val d) ds

digits_value-append :
    (size val : ℕ) (ds : Bytes) (d : ℕ)
    → digits_value size val (ds ++ (d ∷ [])) ≡ push_digit size (digits_value size val ds) d
unfolding digits_value
digits_value-append size val [] d = refl
digits_value-append size val (e ∷ ds) d = digits_value-append size (push_digit size val e) ds d

push_digit_lem : (size v : ℕ) → v < 256 ^ size → push_digit size (v / 256) (v % 256) ≡ v
push_digit_lem size v h =
    rw (mod-eq_of_lt {n = v / 256 * 256} {m = 256 ^ size} (omega arith))
      (rw (mod-eq_of_lt {n = v / 256 * 256 + v % 256} {m = 256 ^ size} (omega arith)) (omega arith))

pub digits_value-big_endian :
    (size n v : ℕ) → v < 256 ^ n → v < 256 ^ size → digits_value size 0 (big_endian n v) ≡ v
unfolding digits_value big_endian
digits_value-big_endian size zero v h k = omega arith
digits_value-big_endian size (suc n) v h k =
    digits_value-append size 0 (big_endian n (v / 256)) (v % 256)
    ∙ rw (digits_value-big_endian size n (v / 256) (omega (arith, pow-suc 256 n)) (omega arith))
        (push_digit_lem size v k)

char_at-append :
    (pre : Bytes) (d : ℕ) (post : Bytes) (i : ℕ)
    → i ≡ length pre
    → char_at (pre ++ (d ∷ post)) i ≡ ok d
unfolding char_at
char_at-append pre d post i h = rw (get_elem?-append pre d post i h, char_at) refl

pub read_loop-digits_value :
    (size i from val : ℕ) (pre ds post : Bytes)
    → i + from ≡ length pre
    → length (pre ++ (ds ++ post)) < 2 ^ 64
    → read_loop size (length ds) i (pre ++ (ds ++ post)) from val ≡ ok (digits_value size val ds)
unfolding read_loop digits_value
read_loop-digits_value size i from val pre [] post e h = refl
read_loop-digits_value size i from val pre (d ∷ ds) post e h =
    rw
      (char_at-append pre d (ds ++ post) ((i + from) % 2 ^ 64)
        (omega (arith, length-append pre (d ∷ (ds ++ post)))))
      (rw (← append_assoc pre (d ∷ []) (ds ++ post)) (
        read_loop-digits_value size (i + 1) from (push_digit size val d) (pre ++ (d ∷ [])) ds post
          (omega (arith, length-append pre (d ∷ [])))
          (rw (append_assoc pre (d ∷ []) (ds ++ post)) h)))

char_at_inside : (raw : Bytes) (i : ℕ) → i < length raw → (b : ℕ) × (char_at raw i ≡ ok b)
unfolding char_at
char_at_inside raw i h = let (b, e) = get_elem?_inside raw i h in (b, rw (e, char_at) refl)

pow_pos : (n : ℕ) → 0 < 256 ^ n
pow_pos zero = omega arith
pow_pos (suc n) = omega (arith, pow-suc 256 n, pow_pos n)

-- Inside the string the loop reads every byte, and keeps to the range of the type.
read_loop_inside :
    (size n i from val : ℕ) (raw : Bytes)
    → i + from + n ≤ length raw
    → length raw < 2 ^ 64
    → val < 256 ^ size
    → (v : ℕ) × (read_loop size n i raw from val ≡ ok v) × (v < 256 ^ size)
unfolding read_loop
read_loop_inside size zero i from val raw h k l = (val, refl, l)
read_loop_inside size (suc n) i from val raw h k l =
    let (b, e) = char_at_inside raw ((i + from) % 2 ^ 64) (omega arith) in
    rw e (
      read_loop_inside size n (i + 1) from (push_digit size val b) raw (omega arith) k
        (mod-lt _ (pow_pos size)))

-- On every string shorter than 2 ^ 64 and every position that does not wrap, `deserialize_int` of a
-- type of at least one byte returns a value of the type and moves by its size exactly when the
-- field fits, and throws when it does not.
pub deserialize_int_cases :
    (size from : ℕ) (raw : Bytes)
    → 0 < size
    → length raw < 2 ^ 64
    → size + from < 2 ^ 64
    → ((from + size ≤ length raw)
        × ((v : ℕ) × (deserialize_int size raw from ≡ ok (v, from + size)) × (v < 256 ^ size)))
      ⊎ ((length raw < from + size) × (deserialize_int size raw from ≡ err incorrect_raw))
unfolding deserialize_int
deserialize_int_cases size from raw h k l =
    elim (Bool-cases (ltb (length raw) ((size + from) % 2 ^ 64))) [
      | inl short ↦ inr (ground arith, ground arith)
      | inr fits ↦
          let (v, e, b) = read_loop_inside size size 0 from 0 raw (ground arith) k (pow_pos size) in
          inl (ground arith, (v, ground arith, b))
    ]
