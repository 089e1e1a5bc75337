-- ===== src/Serialize/Encode.antt =====
-- What the encoders of src/utils/serialize.h write: the digits of the number to base 256, behind
-- what the buffer held.
use node_infrastructure_torr.Prelude.{
  ℕ, zero, suc, ◌+◌, ◌/◌, ◌%◌, ◌≡◌, refl, sym, ap, ◌∙◌, arith, Bytes, [], ◌∷◌, ◌++◌, append-nil,
  append_assoc, length, length-append, length-replicate, set, set-append, replicate, replicate-suc,
  replicate_shift, ◌==◌, inl, inr, Bool-cases,
}
use node_infrastructure_torr.Serialize.{
  write_loop, to_binary_string, to_binary_string_into, serialize_int, serialize_int_into,
  serialize_string, serialize_string_into,
}

-- The last `size` digits of `val` to base 256, the most significant first.
unfoldable pub big_endian : ℕ → ℕ → Bytes
big_endian zero val = []
big_endian (suc n) val = big_endian n (val / 256) ++ (val % 256 ∷ [])

big_endian-zero : (n : ℕ) → big_endian n 0 ≡ replicate n 0
unfolding big_endian
big_endian-zero zero = refl
big_endian-zero (suc n) =
    ap (λ (ds : Bytes). ds ++ (0 ∷ [])) (big_endian-zero n) ∙ sym (replicate-suc n 0)

pub length-big_endian : (n val : ℕ) → length (big_endian n val) ≡ n
unfolding big_endian
length-big_endian zero val = refl
length-big_endian (suc n) val = omega (
  arith,
  length-append (big_endian n (val / 256)) (val % 256 ∷ []),
  length-big_endian n (val / 256),
)

set_zeros :
    (n v : ℕ) (pre post : Bytes)
    → set (pre ++ (replicate (suc n) 0 ++ post)) (length pre + n) v
      ≡ pre ++ (replicate n 0 ++ (v ∷ post))
set_zeros n v pre post =
    rw (← replicate_shift {A = ℕ} n 0 post, ← append_assoc pre (replicate n 0) (0 ∷ post))
      (set-append (pre ++ replicate n 0) 0 post (length pre + n) v
          (omega (arith, length-append pre (replicate n 0), length-replicate {A = ℕ} n 0))
        ∙ append_assoc pre (replicate n 0) (v ∷ post))

-- The zeros before `post` are filled from the right.
write_loop-big_endian :
    (n val : ℕ) (pre post : Bytes)
    → write_loop n val (length pre) (pre ++ (replicate n 0 ++ post))
      ≡ pre ++ (big_endian n val ++ post)
unfolding write_loop big_endian
write_loop-big_endian zero val pre post = refl
write_loop-big_endian (suc n) val pre post = elim (Bool-cases (val == 0)) [
  | inl done ↦ rw done (
      ap (λ (ds : Bytes). pre ++ (ds ++ post))
        (sym (big_endian-zero (suc n)) ∙ ap (big_endian (suc n)) {x = 0} (ground arith)))
  | inr more ↦
      rw (more, set_zeros n (val % 256) pre post)
        (write_loop-big_endian n (val / 256) pre (val % 256 ∷ post)
          ∙ ap (◌++◌ pre) (sym (append_assoc (big_endian n (val / 256)) (val % 256 ∷ []) post)))
]

-- Both overloads write the digits of the value to base 256, most significant first: one returns
-- them, the other appends them to its buffer.
pub to_binary_string-big_endian :
    (size val : ℕ) (buffer : Bytes)
    → (to_binary_string size val ≡ big_endian size val)
      × (to_binary_string_into size val buffer ≡ buffer ++ big_endian size val)
unfolding to_binary_string to_binary_string_into
to_binary_string-big_endian size val buffer = (
  rw (append-nil, append-nil) at (write_loop-big_endian size val [] []),
  rw (append-nil, append-nil) at (write_loop-big_endian size val buffer []),
)

pub serialize_int-big_endian : (size val : ℕ) → serialize_int size val ≡ big_endian size val
unfolding serialize_int
serialize_int-big_endian size val = (to_binary_string-big_endian size val []).0

pub serialize_int_into-big_endian :
    (size val : ℕ) (buffer : Bytes)
    → serialize_int_into size val buffer ≡ buffer ++ big_endian size val
unfolding serialize_int_into
serialize_int_into-big_endian size val buffer = (to_binary_string-big_endian size val buffer).1

pub serialize_string-big_endian :
    (str : Bytes) → serialize_string str ≡ big_endian 8 (length str) ++ str
unfolding serialize_string
serialize_string-big_endian str = rw (serialize_int-big_endian 8 (length str))

pub serialize_string_into-big_endian :
    (str buffer : Bytes)
    → serialize_string_into str buffer ≡ buffer ++ (big_endian 8 (length str) ++ str)
unfolding serialize_string_into
serialize_string_into-big_endian str buffer =
    rw (serialize_int_into-big_endian 8 (length str) buffer)
      (append_assoc buffer (big_endian 8 (length str)) str)
