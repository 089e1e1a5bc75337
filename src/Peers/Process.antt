-- ===== src/Peers/Process.antt =====
-- `P2P::process` of src/P2P/P2P.cpp with the `requestFunction` of src/P2P/P2P_Ips.cpp and
-- src/P2P/P2P_Graph.cpp: the loop that pushes the segments and the threads, which run from the begin
-- on, as steps that interleave in any order. The queue of the submodule common_utils and the replies
-- of the servers are parameters.
pub mod Invariant
pub mod Answers
mod Tests
use node_infrastructure_torr.Prelude.{
  ℕ, suc, ◌<◌, ◌≡◌, Bool, List, [], ◌∷◌, ◌++◌, none, some, Option, Bytes, length, get_elem?, set,
  replicate, ok, ◌==◌,
}
use node_infrastructure_torr.Peers.{Segment, ResponseParse, accept_response, empty_answers}

-- The second parameter of BlockedQueue<Segment, 1000>.
abbrev pub queue_capacity : ℕ
queue_capacity = 1000

-- BlockedQueue<Segment, 1000>: first in, first out, and bounded. `push` gives nothing where it has
-- to wait for room, and `pop` where it has to wait for an element.
pub record SegmentQueue : Type 1 where
  pub Queue : Type 0
  pub empty : Queue
  pub push : Segment → Queue → Option Queue
  pub pop : Queue → Option (Segment × Queue)
  pub items : Queue → List Segment
  pub items-empty : items empty ≡ []
  pub items-push :
      (s : Segment) (q q' : Queue)
      → push s q ≡ some q'
      → (length (items q) < queue_capacity) × (items q' ≡ items q ++ (s ∷ []))
  pub items-pop :
      (q : Queue) (s : Segment) (q' : Queue) → pop q ≡ some (s, q') → items q ≡ s ∷ items q'

-- Where a thread is: before `pop`, in a request for a segment, or behind its loop.
pub data Worker : Type 0 where
  idle : Worker
  busy : Segment → Worker
  exited : Worker

module _ (queue : SegmentQueue) where
  -- `pending` are the segments that the loop of `process` has not pushed yet. `count_lost`, which no
  -- variable of the code holds, counts the segments that do not go back into the queue.
  pub record State : Type 0 where
    pub pending : List Segment
    pub blocked_queue : queue.Queue
    pub workers : List Worker
    pub answers : List Bytes
    pub count_success_requests : ℕ
    pub count_exit_threads : ℕ
    pub count_lost : ℕ

  -- The threads are created, and no segment is pushed yet. A thread before its first `pop` is as one
  -- that is not created yet.
  pub start : ℕ → List Segment → State
  start count_threads segments = record {
    pending = segments;
    blocked_queue = queue.empty;
    workers = replicate count_threads idle;
    answers = empty_answers (length segments);
    count_success_requests = 0;
    count_exit_threads = 0;
    count_lost = 0;
  }

  -- The loop of `process` pushes a segment.
  abbrev pub pushed : State → List Segment → queue.Queue → State
  pushed r rest q = record r { pending = rest; blocked_queue = q }

  -- A thread takes a segment from the queue.
  abbrev pub popped : State → ℕ → Segment → queue.Queue → State
  popped r i s q = record r { blocked_queue = q; workers = set r.workers i (busy s) }

  -- Its request succeeds: the answer is stored and the success counted.
  abbrev pub succeeded : State → ℕ → Segment → Bytes → State
  succeeded r i s answer = record r {
    workers = set r.workers i idle;
    answers = set r.answers s.pos_in_array answer;
    count_success_requests = suc r.count_success_requests;
  }

  -- Its request throws: the segment goes back, once there is room, and the thread ends.
  abbrev pub failed : State → ℕ → queue.Queue → State
  failed r i q = record r {
    blocked_queue = q;
    workers = set r.workers i exited;
    count_exit_threads = suc r.count_exit_threads;
  }

  -- The thread ends by an exception that only the outer handlers catch: one of `makeQsAndPost`, or one
  -- of the request that is no `exception`.
  abbrev pub dropped : State → ℕ → State
  dropped r i = record r {
    workers = set r.workers i exited;
    count_exit_threads = suc r.count_exit_threads;
    count_lost = suc r.count_lost;
  }

  -- An idle thread ends, by the end of the queue or by a signal.
  abbrev pub ended : State → ℕ → State
  ended r i = record r {
    workers = set r.workers i exited;
    count_exit_threads = suc r.count_exit_threads;
  }

  module _ (is_precision_size : Bool) (Reply : Segment → ResponseParse → Type 0) where
    pub data Step : State → State → Type 0 where
      pushes :
          {r : State} (s : Segment) (rest : List Segment) (q : queue.Queue)
          → r.pending ≡ s ∷ rest
          → queue.push s r.blocked_queue ≡ some q
          → Step r (pushed r rest q)
      pops :
          {r : State} (i : ℕ) (s : Segment) (q : queue.Queue)
          → get_elem? r.workers i ≡ some idle
          → queue.pop r.blocked_queue ≡ some (s, q)
          → Step r (popped r i s q)
      succeeds :
          {r : State} (i : ℕ) (s : Segment) (parsed : ResponseParse) (answer : Bytes)
          → get_elem? r.workers i ≡ some (busy s)
          → Reply s parsed
          → accept_response is_precision_size s parsed ≡ ok answer
          → Step r (succeeded r i s answer)
      fails :
          {r : State} (i : ℕ) (s : Segment) (q : queue.Queue)
          → get_elem? r.workers i ≡ some (busy s)
          → queue.push s r.blocked_queue ≡ some q
          → Step r (failed r i q)
      loses :
          {r : State} (i : ℕ) (s : Segment)
          → get_elem? r.workers i ≡ some (busy s)
          → Step r (dropped r i)
      stops : {r : State} (i : ℕ) → get_elem? r.workers i ≡ some idle → Step r (ended r i)

    -- The states that the threads can reach.
    pub data Reaches (count_threads : ℕ) (segments : List Segment) : State → Type 0 where
      begins : Reaches count_threads segments (start count_threads segments)
      goes_on :
          {r r' : State}
          → Reaches count_threads segments r
          → Step r r'
          → Reaches count_threads segments r'

  -- return countSuccessRequests == segments.size()
  pub process_result : List Segment → State → Bool
  process_result segments r = r.count_success_requests == length segments
