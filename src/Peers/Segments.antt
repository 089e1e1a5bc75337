-- ===== src/Peers/Segments.antt =====
-- `P2P::makeSegments` of src/P2P/P2P.cpp cuts the bytes into consecutive pieces.
use node_infrastructure_torr.Prelude.{
  ◌∙◌, ℕ, zero, suc, ◌+◌, ◌/◌, ◌%◌, ◌^◌, ◌≤◌, ◌<◌, ◌≡◌, ap, refl, arith, min, max, List, [], ◌∷◌,
  length, All, Result, ok, fault, ◌⊎◌, inl, inr, ◌≢◌, ◌-◌, same_or_not, Bool-cases, ==_iff, check,
  incorrect_count, not, ◌==◌, ◌>>◌,
}
use native.Mathlib.Nat.{div_self, le-div_iff_mul-le}
use node_infrastructure_torr.Peers.{
  Segment, segments_loop, make_segments, count_segments, request_segments,
}

-- The segments lie one behind the other from `from` to `size`, and are numbered from `i` on.
abbrev pub IsChain : ℕ → ℕ → ℕ → List Segment → Type 0
IsChain from i size [] = from ≡ size
IsChain from i size (s ∷ rest) =
    (s.from_byte ≡ from)
    × (s.pos_in_array ≡ i)
    × (from ≤ s.to_byte)
    × (s.to_byte ≤ size)
    × IsChain s.to_byte (suc i) size rest

segments_loop-IsChain :
    (n i prev step size : ℕ)
    → prev ≤ size
    → step ≤ size
    → size < 2 ^ 63
    → IsChain prev i size (segments_loop n i prev step size)
      × (length (segments_loop n i prev step size) ≡ suc n)
unfolding segments_loop
segments_loop-IsChain zero i prev step size h k l = ((refl, refl, h, omega arith, refl), refl)
segments_loop-IsChain (suc n) i prev step size h k l =
    let next = min ((prev + step) % 2 ^ 64) size in
    let (chain, count) = segments_loop-IsChain n (suc i) next step size (omega arith) k l in
    ((refl, refl, omega arith, omega arith, chain), ap suc count)

checks_step :
    (step : ℕ) (segments : List Segment)
    → 0 < step
    → (check (not (step == 0)) incorrect_count >> ok segments) ≡ ok segments
checks_step step segments h = ground arith

-- For counts that are not 0 and a size that is not 0 and below 2 ^ 63, `makeSegments` returns the
-- number of segments it is asked for, which cover all bytes from 0 to the size, one behind the
-- other and numbered from 0 on.
pub make_segments-IsChain :
    (count size min_size : ℕ)
    → 0 < count
    → 0 < size
    → 0 < min_size
    → size < 2 ^ 63
    → (segments : List Segment) × (make_segments count size min_size ≡ ok segments)
      × (length segments ≡ count)
      × IsChain 0 0 size segments
unfolding make_segments
make_segments-IsChain zero size min_size h k m l = absurd (omega arith)
make_segments-IsChain (suc n) size min_size h k m l =
    let step = min size (max (size / suc n) min_size) in
    let (chain, count) = segments_loop-IsChain n 0 0 step size (omega arith) (omega arith) l in
    (segments_loop n 0 0 step size, checks_step step _ (omega arith), count, chain)

abbrev pub HasOneByte : Segment → Type 0
HasOneByte s = s.to_byte ≡ suc s.from_byte

segments_loop-HasOneByte :
    (n i prev size : ℕ)
    → prev + suc n ≡ size
    → size < 2 ^ 63
    → All HasOneByte (segments_loop n i prev 1 size)
unfolding segments_loop
segments_loop-HasOneByte zero i prev size h l = (omega arith, tt)
segments_loop-HasOneByte (suc n) i prev size h l = (
  omega arith,
  segments_loop-HasOneByte n (suc i) (min ((prev + 1) % 2 ^ 64) size) size (omega arith) l,
)

-- For a size that is not 0 and below 2 ^ 63, as many segments as there are bytes have one byte
-- each.
pub make_segments-HasOneByte :
    (size : ℕ)
    → 0 < size
    → size < 2 ^ 63
    → (segments : List Segment) × (make_segments size size 1 ≡ ok segments)
      × All HasOneByte segments
unfolding make_segments
make_segments-HasOneByte zero h l = absurd (omega arith)
make_segments-HasOneByte (suc n) h l =
    rw (div_self {n = suc n} h, one_step)
      ((
        segments_loop n 0 0 1 (suc n),
        refl,
        segments_loop-HasOneByte n 0 0 (suc n) (omega arith) l,
      ))
  where
    one_step : min (suc n) (max 1 1) ≡ 1
    one_step = omega arith

checks_size :
    (size : ℕ) (r : Result (List Segment))
    → 0 < size
    → (check (not (size == 0)) incorrect_count >> r) ≡ r
checks_size size r h = ground arith

one_piece : (size min_size : ℕ) → 0 < min_size → min_size ≤ size → 1 ≤ size / min_size
one_piece size min_size h k = (le-div_iff_mul-le h).1 (omega arith)

threads_or_none :
    (size min_size threads : ℕ)
    → 0 < size
    → 0 < min_size
    → size + min_size < 2 ^ 63
    → ((threads ≡ 0) × (min_size ≢ 1) × (count_segments size min_size threads ≡ 0))
      ⊎ (0 < count_segments size min_size threads)
unfolding count_segments
threads_or_none size min_size threads h k l = elim (Bool-cases (min_size == 1)) [
  | inl e ↦ inr (rw e h)
  | inr e ↦ elim (same_or_not threads 0) [
    | inl t ↦ inl (t, λ one. cc (e, (==_iff min_size 1).1 one), rw e (omega arith))
    | inr t ↦
        inr (
          rw e (omega (arith, one_piece ((size + min_size - 1) % 2 ^ 64) min_size k (omega arith))))
  ]
]

-- For sizes that are not 0 and below 2 ^ 63 together: there is no thread and the least size is not
-- 1, and `makeSegments` divides by 0; or `requestImpl` gets the number of segments it computes,
-- which cover the response.
pub request_segments_cases :
    (size min_size threads : ℕ)
    → 0 < size
    → 0 < min_size
    → size + min_size < 2 ^ 63
    → ((threads ≡ 0) × (min_size ≢ 1) × (request_segments size min_size threads ≡ fault))
      ⊎ ((segments : List Segment) × (request_segments size min_size threads ≡ ok segments)
          × (length segments ≡ count_segments size min_size threads)
          × IsChain 0 0 size segments)
unfolding request_segments
request_segments_cases size min_size threads h k l =
    elim (threads_or_none size min_size threads h k l) [
      | inl (t, one, none_asked) ↦
          inl (t, one, rw (none_asked) (checks_size size _ h ∙ no_division size min_size))
      | inr some_asked ↦
          let (segments, e, n, c) =
            make_segments-IsChain (count_segments size min_size threads) size min_size some_asked h
              k (omega arith) in
          inr (segments, checks_size size _ h ∙ e, n, c)
    ]
  where
    no_division : (size min_size : ℕ) → make_segments 0 size min_size ≡ fault
    no_division size min_size = unfold make_segments in refl
