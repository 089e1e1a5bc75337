-- ===== src/Peers.antt =====
-- src/P2P/P2P.h, src/P2P/P2P.cpp, src/P2P/P2P_Ips.cpp and src/P2P/P2P_Graph.cpp: a response that
-- is requested in segments, from several threads at once, and put together again.
pub mod Segments
pub mod Assembly
pub mod Process
use node_infrastructure_torr.Prelude.{
  ℕ, zero, suc, ◌+◌, ◌-◌, ◌/◌, ◌%◌, ◌^◌, min, max, Bool, not, Bytes, List, [], ◌∷◌, ◌++◌, Option,
  none, some, length, concat_map, append_each, ◌==◌, if◌then◌else◌, Result, ok, err, fault, ◌>>=◌,
  ◌>>◌, check, incorrect_count, not_success, replicate,
}

pub record Segment : Type 0 where
  pub from_byte : ℕ
  pub to_byte : ℕ
  pub pos_in_array : ℕ

-- for (size_t i = 0; i < countSegments - 1; i++), and the segment behind the loop. The first
-- argument is the number of rounds left.
pub segments_loop : ℕ → ℕ → ℕ → ℕ → ℕ → List Segment
segments_loop zero i prev_byte step size =
    record { from_byte = prev_byte; to_byte = size; pos_in_array = i } ∷ []
segments_loop (suc n) i prev_byte step size =
    let next_byte = min ((prev_byte + step) % 2 ^ 64) size in
    record { from_byte = prev_byte; to_byte = next_byte; pos_in_array = i }
    ∷ segments_loop n (suc i) next_byte step size

-- P2P::makeSegments(countSegments, size, minSize), which divides by countSegments.
pub make_segments : ℕ → ℕ → ℕ → Result (List Segment)
unfolding segments_loop
make_segments zero size min_size = fault
make_segments (suc n) size min_size =
    let step = min size (max (size / suc n) min_size) in
    check (not (step == 0)) incorrect_count >> ok (segments_loop n 0 0 step size)

-- The number of segments that `requestImpl` asks for, of this many threads.
pub count_segments : ℕ → ℕ → ℕ → ℕ
count_segments response_size min_response_size threads =
    if min_response_size == 1
    then response_size
    else min ((response_size + min_response_size - 1) % 2 ^ 64 / min_response_size) threads

-- The start of `requestImpl` in src/P2P/P2P_Ips.cpp: its segments, of this many threads.
pub request_segments : ℕ → ℕ → ℕ → Result (List Segment)
unfolding count_segments make_segments
request_segments response_size min_response_size threads =
    check (not (response_size == 0)) incorrect_count
    >> make_segments (count_segments response_size min_response_size threads) response_size
        min_response_size

-- The field `error` is a text, if there is one.
pub record ResponseParse : Type 0 where
  pub response : Bytes
  pub error : Option Bytes

abbrev no_error : Option Bytes → Result (Unit {0})
no_error none = ok tt
no_error (some e) = err not_success

-- What `requestFunction` stores of a response that was parsed.
pub accept_response : Bool → Segment → ResponseParse → Result Bytes
accept_response is_precision_size s parsed =
    no_error parsed.error
    >> (if is_precision_size
        then check (length parsed.response == s.to_byte - s.from_byte) incorrect_count
        else ok tt)
    >> ok parsed.response

-- std::vector<std::string> answers(countSegments)
pub empty_answers : ℕ → List Bytes
empty_answers count = replicate count []

-- The end of `request`, which puts the answers together.
pub join_answers : ℕ → Bool → List Bytes → Result Bytes
join_answers response_size is_precision_size answers =
    let response = append_each (λ answer. answer) [] answers in
    (if is_precision_size then check (length response == response_size) incorrect_count else ok tt)
    >> ok response
