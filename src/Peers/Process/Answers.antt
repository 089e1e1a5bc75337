-- ===== src/Peers/Process/Answers.antt =====
-- What `P2P::process` of src/P2P/P2P.cpp has stored when it reports success.
use node_infrastructure_torr.Prelude.{
  ℕ, zero, suc, ◌≡◌, ◌≢◌, inl, inr, sym, ap, ◌∙◌, arith, Bool, true, List, [], some, Bytes, length,
  get_elem?, replicate, length-replicate, get_elem?-lt, ==_iff,
}
use node_infrastructure_torr.Peers.{Segment, ResponseParse, empty_answers}
use node_infrastructure_torr.Peers.Process.{
  SegmentQueue, idle, busy, State, start, Step, pushes, pops, succeeds, fails, loses, stops,
  Reaches, begins, goes_on, process_result,
}
use node_infrastructure_torr.Peers.Process.Invariant.{
  count_busy_pos, count_busy-replicate, IsNumbered, IsAnswer, IsAccounted, IsConsistent,
  pushes-IsConsistent, pops-IsConsistent, succeeds-IsConsistent, fails-IsConsistent,
  loses-IsConsistent, stops-IsConsistent,
}

idle_everywhere : (n j : ℕ) (s : Segment) → get_elem? (replicate n idle) j ≢ some (busy s)
idle_everywhere zero j s e = cc e
idle_everywhere (suc n) zero s e = cc e
idle_everywhere (suc n) (suc j) s e = idle_everywhere n j s e

module _ (queue : SegmentQueue) (is_precision_size : Bool)
    (Reply : Segment → ResponseParse → Type 0) where
  module _ (segments : List Segment) (numbered : IsNumbered segments) (count_threads : ℕ) where
    start-IsConsistent :
        IsConsistent queue is_precision_size Reply segments (start queue count_threads segments)
    unfolding start empty_answers
    start-IsConsistent = record {
      balance = omega (arith, ap length queue.items-empty, count_busy-replicate count_threads);
      room = length-replicate (length segments) [];
      to_push = λ j s at. ap (get_elem? segments) (numbered j s at) ∙ at;
      waiting = λ j s e.
          absurd (cc (ap (λ (l : List Segment). get_elem? l j) (sym queue.items-empty) ∙ e));
      working = λ j s e. absurd (idle_everywhere count_threads j s e);
      accounted = λ s p. inl (s.pos_in_array, p);
    }

    Step-IsConsistent :
        {r r' : State queue}
        → IsConsistent queue is_precision_size Reply segments r
        → Step queue is_precision_size Reply r r'
        → IsConsistent queue is_precision_size Reply segments r'
    Step-IsConsistent {r = r} v (pushes s rest q e f) =
        pushes-IsConsistent queue is_precision_size Reply segments r v 0 s rest q e
          (queue.items-push s r.blocked_queue q f).1
    Step-IsConsistent {r = r} v (pops i s q h e) =
        pops-IsConsistent queue is_precision_size Reply segments r v i s q h
          (queue.items-pop r.blocked_queue s q e)
    Step-IsConsistent {r = r} v (succeeds i s parsed answer h e f) =
        succeeds-IsConsistent queue is_precision_size Reply segments r v i s answer h
          (record { parsed = parsed; replied = e; accepted = f })
    Step-IsConsistent {r = r} v (fails i s q h f) =
        fails-IsConsistent queue is_precision_size Reply segments r v i s q h
          (queue.items-push s r.blocked_queue q f).1
    Step-IsConsistent {r = r} v (loses i s h) =
        loses-IsConsistent queue is_precision_size Reply segments r v i s h
    Step-IsConsistent {r = r} v (stops i h) =
        stops-IsConsistent queue is_precision_size Reply segments r v i h

    -- However the threads and the loop that pushes the segments interleave, on segments that are
    -- numbered by their places, each segment is still to be pushed, waits in the queue, is requested
    -- by a thread, has its accepted answer in its place, or a segment was lost, and the segments in
    -- these states add up to all segments.
    pub Reaches-IsConsistent :
        {r : State queue}
        → Reaches queue is_precision_size Reply count_threads segments r
        → IsConsistent queue is_precision_size Reply segments r
    Reaches-IsConsistent begins = start-IsConsistent
    Reaches-IsConsistent (goes_on w step) = Step-IsConsistent (Reaches-IsConsistent w) step

    -- When `process` reports success on segments that are numbered by their places, the place of
    -- each segment holds an answer that a server gave for it and that was accepted, however the
    -- threads and the loop that pushes the segments interleave and whichever requests failed.
    pub process_result_lem :
        (r : State queue)
        → Reaches queue is_precision_size Reply count_threads segments r
        → process_result queue segments r ≡ true
        → (s : Segment) → get_elem? segments s.pos_in_array ≡ some s
        → (answer : Bytes) × (get_elem? r.answers s.pos_in_array ≡ some answer)
          × IsAnswer queue is_precision_size Reply segments s answer
    unfolding process_result
    process_result_lem r w e s p = by_place (v.accounted s p)
      where
        v : IsConsistent queue is_precision_size Reply segments r
        v = Reaches-IsConsistent w

        all_done : r.count_success_requests ≡ length segments
        all_done = (==_iff r.count_success_requests (length segments)).0 e

        by_place :
            IsAccounted queue is_precision_size Reply segments r s
            → (answer : Bytes) × (get_elem? r.answers s.pos_in_array ≡ some answer)
              × IsAnswer queue is_precision_size Reply segments s answer
        by_place (inl (j, at)) =
            absurd (omega (arith, v.balance, all_done, get_elem?-lt r.pending j at))
        by_place (inr (inl (j, at))) =
            absurd
              (omega (arith, v.balance, all_done, get_elem?-lt (queue.items r.blocked_queue) j at))
        by_place (inr (inr (inl (j, at)))) =
            absurd (omega (arith, v.balance, all_done, count_busy_pos r.workers j at))
        by_place (inr (inr (inr (inl done)))) = done
        by_place (inr (inr (inr (inr l)))) = absurd (omega (arith, v.balance, all_done))
