-- ===== src/Peers/Process/Tests.antt =====
-- A run of `P2P::process` of src/P2P/P2P.cpp with two threads and two segments: the first thread's
-- request fails before the second segment is pushed, and the second thread does the rest.
use node_infrastructure_torr.Prelude.{
  ltb, if◌then◌else◌, ◌<◌, Bool-cases, inl, inr, ℕ, ◌≢◌, ◌⊎◌, fault, ◌≡◌, refl, sym, ap, arith,
  true, List, [], ◌∷◌, ◌++◌, Option, none, some, zero, suc, Bytes, codes, length, get_elem?, ok,
}
use node_infrastructure_torr.Peers.{
  Segment, segments_loop, make_segments, count_segments, request_segments, ResponseParse,
  accept_response, empty_answers, join_answers,
}
use node_infrastructure_torr.Peers.Segments.{IsChain, request_segments_cases}
use node_infrastructure_torr.Peers.Assembly.{slice, join_answers_lem}
use node_infrastructure_torr.Peers.Process.{
  queue_capacity, SegmentQueue, State, start, pushed, popped, succeeded, failed, pushes, pops,
  succeeds, fails, Reaches, begins, goes_on, process_result,
}
use node_infrastructure_torr.Peers.Process.Invariant.{IsNumbered, IsAnswer, IsConsistent}
use node_infrastructure_torr.Peers.Process.Answers.{Reaches-IsConsistent, process_result_lem}

abbrev pop_list : List Segment → Option (Segment × List Segment)
pop_list [] = none
pop_list (s ∷ rest) = some (s, rest)

pop_list_lem :
    (q : List Segment) (s : Segment) (q' : List Segment) → pop_list q ≡ some (s, q') → q ≡ s ∷ q'
pop_list_lem [] s q' e = absurd (cc e)
pop_list_lem (x ∷ q) s q' e = cc e

abbrev push_list : Segment → List Segment → Option (List Segment)
push_list s q = if ltb (length q) queue_capacity then some (q ++ (s ∷ [])) else none

push_list_lem :
    (s : Segment) (q q' : List Segment)
    → push_list s q ≡ some q'
    → (length q < queue_capacity) × (q' ≡ q ++ (s ∷ []))
push_list_lem s q q' e = elim (Bool-cases (ltb (length q) queue_capacity)) [
  | inl room ↦ (ground arith, sym (cc (rw room at e)))
  | inr full ↦ absurd (cc (rw full at e))
]

abbrev list_queue : SegmentQueue
list_queue = record {
  Queue = List Segment;
  empty = [];
  push = push_list;
  pop = pop_list;
  items = λ q. q;
  items-empty = refl;
  items-push = push_list_lem;
  items-pop = pop_list_lem;
}

abbrev bytes : Bytes
bytes = codes "abcd"

abbrev first : Segment
first = record { from_byte = 0; to_byte = 2; pos_in_array = 0 }

abbrev second : Segment
second = record { from_byte = 2; to_byte = 4; pos_in_array = 1 }

abbrev segments : List Segment
segments = first ∷ second ∷ []

made : make_segments 2 4 1 ≡ ok segments
unfolding make_segments segments_loop
made = refl

abbrev Reply : Segment → ResponseParse → Type 0
Reply s parsed = parsed ≡ record { response = slice bytes s; error = none }

truthful :
    (s : Segment) (parsed : ResponseParse)
    → Reply s parsed
    → parsed.error ≡ none
    → parsed.response ≡ slice bytes s
truthful s parsed e n = ap (λ (p : ResponseParse). p.response) e

abbrev begun : State list_queue
unfolding start empty_answers
begun = start list_queue 2 segments

abbrev first_pushed : State list_queue
first_pushed = pushed list_queue begun (second ∷ []) (first ∷ [])

abbrev after_failure : State list_queue
after_failure = failed list_queue (popped list_queue first_pushed 0 first []) 0 (first ∷ [])

abbrev all_pushed : State list_queue
all_pushed = pushed list_queue after_failure [] (first ∷ second ∷ [])

abbrev after_first : State list_queue
after_first =
    succeeded list_queue (popped list_queue all_pushed 1 first (second ∷ [])) 1 first (codes "ab")

abbrev finished : State list_queue
finished = succeeded list_queue (popped list_queue after_first 1 second []) 1 second (codes "cd")

-- Until all segments are pushed.
pushed_reached : Reaches list_queue true Reply 2 segments all_pushed
unfolding start empty_answers
pushed_reached =
    goes_on
      (goes_on
        (goes_on (goes_on begins (pushes first (second ∷ []) (first ∷ []) refl refl))
          (pops 0 first [] refl refl))
        (fails 0 first (first ∷ []) refl refl))
      (pushes second [] (first ∷ second ∷ []) refl refl)

finished_reached : Reaches list_queue true Reply 2 segments finished
unfolding start empty_answers accept_response
finished_reached =
    goes_on
      (goes_on
        (goes_on (goes_on pushed_reached (pops 1 first (second ∷ []) refl refl)) (
          succeeds 1 first (record { response = codes "ab"; error = none }) (codes "ab") refl refl
            refl))
        (pops 1 second [] refl refl))
      (succeeds 1 second (record { response = codes "cd"; error = none }) (codes "cd") refl refl
        refl)

finished_successful : process_result list_queue segments finished ≡ true
unfolding process_result begun
finished_successful = refl

segments-IsNumbered : IsNumbered segments
segments-IsNumbered zero s e = ap (λ (x : Segment). x.pos_in_array) (sym same)
  where
    same : first ≡ s
    same = cc e
segments-IsNumbered (suc zero) s e = ap (λ (x : Segment). x.pos_in_array) (sym same)
  where
    same : second ≡ s
    same = cc e
segments-IsNumbered (suc (suc k)) s e = absurd (cc e)

Reaches-IsConsistent_example : IsConsistent list_queue true Reply segments finished
Reaches-IsConsistent_example =
    Reaches-IsConsistent list_queue true Reply segments segments-IsNumbered 2 finished_reached

process_result_lem_example :
    (answer : Bytes) × (get_elem? finished.answers 1 ≡ some answer)
    × IsAnswer list_queue true Reply segments second answer
process_result_lem_example =
    process_result_lem list_queue true Reply segments segments-IsNumbered 2 finished
      finished_reached finished_successful second refl

join_answers_lem_example : join_answers 4 true finished.answers ≡ ok bytes
join_answers_lem_example =
    join_answers_lem list_queue true Reply bytes 2 2 1 segments finished (omega arith) (omega arith)
      (omega arith) (omega arith) made truthful finished_reached finished_successful

abbrev threads : ℕ
threads = 0

abbrev min_size : ℕ
min_size = 1000

request_segments_cases_example :
    ((threads ≡ 0) × (min_size ≢ 1) × (request_segments 2500 min_size threads ≡ fault))
    ⊎ ((pieces : List Segment) × (request_segments 2500 min_size threads ≡ ok pieces)
        × (length pieces ≡ count_segments 2500 min_size threads)
        × IsChain 0 0 2500 pieces)
request_segments_cases_example =
    request_segments_cases 2500 min_size threads (omega arith) (omega arith) (omega arith)
