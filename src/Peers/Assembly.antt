-- ===== src/Peers/Assembly.antt =====
-- The answers to the segments of src/P2P/P2P_Ips.cpp and src/P2P/P2P_Graph.cpp, put together again.
use node_infrastructure_torr.Prelude.{
  ℕ, zero, suc, ◌+◌, ◌-◌, ◌^◌, ◌≡◌, ◌≤◌, ◌<◌, refl, sym, ap, ◌∙◌, arith, Bool, true, List, [], ◌∷◌,
  ◌++◌, none, some, Bytes, length, get_elem?, take, drop, take-append-drop, concat_map, append_each,
  append_each-append, ok, ◌>>◌, ◌==◌, ==_iff, if◌then◌else◌, check, incorrect_count,
}
use node_infrastructure_torr.Peers.{
  Segment, ResponseParse, make_segments, accept_response, join_answers,
}
use node_infrastructure_torr.Peers.Segments.{IsChain, make_segments-IsChain}
use node_infrastructure_torr.Peers.Process.{SegmentQueue, State, Reaches, process_result}
use node_infrastructure_torr.Peers.Process.Invariant.{IsNumbered, IsAnswer}
use node_infrastructure_torr.Peers.Process.Answers.{Reaches-IsConsistent, process_result_lem}

-- The bytes of a segment.
abbrev pub slice : Bytes → Segment → Bytes
slice bytes s = take (s.to_byte - s.from_byte) (drop s.from_byte bytes)

same_drop : (a b : ℕ) (xs : Bytes) → a ≡ b → drop a xs ≡ drop b xs
same_drop a b xs e = ap (λ (k : ℕ). drop k xs) e

drop_nil : (n : ℕ) → drop {A = ℕ} n [] ≡ []
drop_nil zero = refl
drop_nil (suc n) = refl

drop-drop : (a n : ℕ) (xs : Bytes) → drop n (drop a xs) ≡ drop (a + n) xs
drop-drop zero n xs = same_drop n (0 + n) xs (omega arith)
drop-drop (suc a) n [] = drop_nil n ∙ sym (drop_nil (suc a + n))
drop-drop (suc a) n (x ∷ xs) =
    drop-drop a n xs ∙ same_drop (suc (a + n)) (suc a + n) (x ∷ xs) (omega arith)

drop_all : (n : ℕ) (xs : Bytes) → length xs ≤ n → drop n xs ≡ []
drop_all zero [] h = refl
drop_all zero (x ∷ xs) h = absurd (omega arith)
drop_all (suc n) [] h = refl
drop_all (suc n) (x ∷ xs) h = drop_all n xs (omega arith)

slice-append :
    (bytes : Bytes) (s : Segment)
    → s.from_byte ≤ s.to_byte
    → slice bytes s ++ drop s.to_byte bytes ≡ drop s.from_byte bytes
slice-append bytes s h =
    ap (λ (l : Bytes). slice bytes s ++ l)
      (ap (λ (k : ℕ). drop k bytes) (omega arith)
        ∙ sym (drop-drop s.from_byte (s.to_byte - s.from_byte) bytes))
    ∙ take-append-drop (s.to_byte - s.from_byte) (drop s.from_byte bytes)

IsChain-place :
    (from i size : ℕ) (segments : List Segment)
    → IsChain from i size segments
    → (k : ℕ) (s : Segment) → get_elem? segments k ≡ some s
    → s.pos_in_array ≡ i + k
IsChain-place from i size [] c k s e = absurd (cc e)
IsChain-place from i size (t ∷ rest) (_, p, _, _, c) zero s e =
    ap (λ (x : Segment). x.pos_in_array) (sym same) ∙ p ∙ omega arith
  where
    same : t ≡ s
    same = cc e
IsChain-place from i size (t ∷ rest) (_, _, _, _, c) (suc k) s e =
    IsChain-place t.to_byte (suc i) size rest c k s e ∙ omega arith

concat_slices :
    (bytes : Bytes) (from i : ℕ) (segments : List Segment) (answers : List Bytes)
    → IsChain from i (length bytes) segments
    → length answers ≡ length segments
    → ((k : ℕ) (s : Segment)
        → get_elem? segments k ≡ some s
        → get_elem? answers k ≡ some (slice bytes s))
    → concat_map (λ answer. answer) answers ≡ drop from bytes
concat_slices bytes from i [] [] c l a = sym (drop_all from bytes (omega (arith, c)))
concat_slices bytes from i [] (x ∷ xs) c l a = absurd (omega arith)
concat_slices bytes from i (s ∷ rest) [] c l a = absurd (omega arith)
concat_slices bytes from i (s ∷ rest) (x ∷ xs) (p, _, q, _, c) l a =
    ap (λ (y : Bytes). y ++ concat_map (λ answer. answer) xs) first
    ∙ ap (λ (y : Bytes). slice bytes s ++ y)
        (concat_slices bytes s.to_byte (suc i) rest xs c (omega arith) (λ k t e. a (suc k) t e))
    ∙ slice-append bytes s (omega arith)
    ∙ ap (λ (n : ℕ). drop n bytes) p
  where
    first : x ≡ slice bytes s
    first = cc (a 0 s refl)

module _ (queue : SegmentQueue) (is_precision_size : Bool)
    (Reply : Segment → ResponseParse → Type 0) where
  answer_of :
      (bytes : Bytes) (segments : List Segment) (s : Segment) (answer : Bytes)
      → ((parsed : ResponseParse)
          → Reply s parsed
          → parsed.error ≡ none
          → parsed.response ≡ slice bytes s)
      → IsAnswer queue is_precision_size Reply segments s answer
      → answer ≡ slice bytes s
  unfolding accept_response
  answer_of bytes segments s answer truthful a =
      sym (accepted a.accepted).1 ∙ truthful a.parsed a.replied (accepted a.accepted).0
    where
      accepted :
          accept_response is_precision_size s a.parsed ≡ ok answer
          → (a.parsed.error ≡ none) × (a.parsed.response ≡ answer)
      accepted e = ground arith

  size_checks :
      (p : Bool) (bytes : Bytes)
      → ((if p then check (length bytes == length bytes) incorrect_count else ok tt) >> ok bytes)
        ≡ ok bytes
  size_checks p bytes = ground (arith, (==_iff (length bytes) (length bytes)).1 refl)

  -- For a response that is not empty and shorter than 2 ^ 63, cut into segments by `makeSegments`
  -- with counts that are not 0: if each server that replies without an error replies with the bytes
  -- of the segment, then after a `process` that reports success the answers put together are the
  -- whole response, however the threads and the loop that pushes the segments interleave and
  -- whichever requests failed.
  pub join_answers_lem :
      (bytes : Bytes) (count_threads count min_size : ℕ) (segments : List Segment) (r : State queue)
      → 0 < count
      → 0 < length bytes
      → 0 < min_size
      → length bytes < 2 ^ 63
      → make_segments count (length bytes) min_size ≡ ok segments
      → ((s : Segment) (parsed : ResponseParse)
          → Reply s parsed
          → parsed.error ≡ none
          → parsed.response ≡ slice bytes s)
      → Reaches queue is_precision_size Reply count_threads segments r
      → process_result queue segments r ≡ true
      → join_answers (length bytes) is_precision_size r.answers ≡ ok bytes
  unfolding join_answers
  join_answers_lem bytes count_threads count min_size segments r h k m l e truthful w done =
      rw (joined) (size_checks is_precision_size bytes)
    where
      chain : IsChain 0 0 (length bytes) segments
      chain =
          let (made, f, _, c) = make_segments-IsChain count (length bytes) min_size h k m l in
          let same : made ≡ segments = cc (e, f) in rw (same) at c

      numbered : IsNumbered segments
      numbered k s at = IsChain-place 0 0 (length bytes) segments chain k s at ∙ omega arith

      room : length r.answers ≡ length segments
      room =
          (Reaches-IsConsistent queue is_precision_size Reply segments numbered count_threads
            w).room

      stored :
          (k : ℕ) (s : Segment)
          → get_elem? segments k ≡ some s
          → get_elem? r.answers k ≡ some (slice bytes s)
      stored k s at =
          let place = numbered k s at in
          let (answer, f, a) =
            process_result_lem queue is_precision_size Reply segments numbered count_threads r w
              done s (ap (get_elem? segments) place ∙ at) in
          ap (get_elem? r.answers) (sym place)
          ∙ f
          ∙ ap some (answer_of bytes segments s answer (λ p. truthful s p) a)

      joined : append_each (λ answer. answer) [] r.answers ≡ bytes
      joined =
          append_each-append (λ answer. answer) [] r.answers
          ∙ concat_slices bytes 0 0 segments r.answers chain room stored
