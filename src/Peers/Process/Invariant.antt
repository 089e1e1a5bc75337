-- ===== src/Peers/Process/Invariant.antt =====
-- Where the segments of `P2P::process` of src/P2P/P2P.cpp are.
use node_infrastructure_torr.Prelude.{
  ℕ, zero, suc, ◌+◌, ◌≡◌, ◌≢◌, ◌<◌, ◌⊎◌, inl, inr, refl, sym, ap, ◌∙◌, arith, Bool, List, [], ◌∷◌,
  ◌++◌, some, Bytes, get_elem?-set_cases, same_or_not, length, length-append, get_elem?, set,
  replicate, get_elem?-set_self, get_elem?-set_ne, length-set, get_elem?-append,
  get_elem?-append_left, get_elem?-lt, ok, get_elem?-snoc,
}
use node_infrastructure_torr.Peers.{Segment, ResponseParse, accept_response}
use node_infrastructure_torr.Peers.Process.{
  SegmentQueue, Worker, idle, busy, exited, State, pushed, popped, succeeded, failed, dropped,
  ended,
}

abbrev is_busy : Worker → ℕ
is_busy idle = 0
is_busy (busy s) = 1
is_busy exited = 0

pub count_busy : List Worker → ℕ
count_busy [] = 0
count_busy (w ∷ ws) = is_busy w + count_busy ws

count_busy-set :
    (ws : List Worker) (i : ℕ) (v : Worker) {w : Worker}
    → get_elem? ws i ≡ some w
    → count_busy (set ws i v) + is_busy w ≡ count_busy ws + is_busy v
unfolding count_busy
count_busy-set [] i v h = absurd (cc h)
count_busy-set (x ∷ ws) zero v {w} h = rw (← same) (omega arith)
  where
    same : x ≡ w
    same = cc h
count_busy-set (x ∷ ws) (suc i) v h = omega (arith, count_busy-set ws i v h)

pub count_busy-replicate : (n : ℕ) → count_busy (replicate n idle) ≡ 0
unfolding count_busy
count_busy-replicate zero = refl
count_busy-replicate (suc n) = omega (arith, count_busy-replicate n)

pub count_busy_pos :
    (ws : List Worker) (j : ℕ) {s : Segment} → get_elem? ws j ≡ some (busy s) → 0 < count_busy ws
unfolding count_busy
count_busy_pos [] j h = absurd (cc h)
count_busy_pos (w ∷ ws) zero {s} h = rw (same) (omega arith)
  where
    same : w ≡ busy s
    same = cc h
count_busy_pos (w ∷ ws) (suc j) h = omega (arith, count_busy_pos ws j h)

-- The segments are numbered by their places.
abbrev pub IsNumbered : List Segment → Type 0
IsNumbered segments = (k : ℕ) (s : Segment) → get_elem? segments k ≡ some s → s.pos_in_array ≡ k

module _ (queue : SegmentQueue) (is_precision_size : Bool)
    (Reply : Segment → ResponseParse → Type 0) (segments : List Segment) where
  -- An answer that a server gave for this segment.
  pub record IsAnswer (s : Segment) (answer : Bytes) : Type 0 where
    pub parsed : ResponseParse
    pub replied : Reply s parsed
    pub accepted : accept_response is_precision_size s parsed ≡ ok answer

  abbrev IsPlaced : Segment → Type 0
  IsPlaced s = get_elem? segments s.pos_in_array ≡ some s

  -- A segment is still to be pushed, or waits in the queue, or a thread requests it, or its answer is
  -- stored, or a segment was lost.
  abbrev pub IsAccounted : State queue → Segment → Type 0
  IsAccounted r s =
      ((j : ℕ) × (get_elem? r.pending j ≡ some s))
      ⊎ ((j : ℕ) × (get_elem? (queue.items r.blocked_queue) j ≡ some s))
      ⊎ ((j : ℕ) × (get_elem? r.workers j ≡ some (busy s)))
      ⊎ ((answer : Bytes) × (get_elem? r.answers s.pos_in_array ≡ some answer) × IsAnswer s answer)
      ⊎ (0 < r.count_lost)

  pub record IsConsistent (r : State queue) : Type 0 where
    pub balance :
        length r.pending
          + length (queue.items r.blocked_queue)
          + count_busy r.workers
          + r.count_success_requests
          + r.count_lost
        ≡ length segments
    pub room : length r.answers ≡ length segments
    pub to_push : (j : ℕ) (s : Segment) → get_elem? r.pending j ≡ some s → IsPlaced s
    pub waiting :
        (j : ℕ) (s : Segment) → get_elem? (queue.items r.blocked_queue) j ≡ some s → IsPlaced s
    pub working : (j : ℕ) (s : Segment) → get_elem? r.workers j ≡ some (busy s) → IsPlaced s
    pub accounted : (s : Segment) → IsPlaced s → IsAccounted r s

  module _ (r : State queue) (v : IsConsistent r) (i : ℕ) where
    -- Another thread than `i` keeps what it does.
    kept :
        (j : ℕ) (w : Worker) {t u : Worker}
        → get_elem? r.workers i ≡ some t
        → get_elem? r.workers j ≡ some u
        → t ≢ u
        → get_elem? (set r.workers i w) j ≡ some u
    kept j w {t} {u} h k n = get_elem?-set_ne r.workers w (λ e. n (other e)) ∙ k
      where
        other : i ≡ j → t ≡ u
        other e = cc (h, k, ap (get_elem? r.workers) e)

    still_working :
        (j : ℕ) (s : Segment) (w : Worker)
        → (w ≢ busy s)
        → get_elem? (set r.workers i w) j ≡ some (busy s)
        → IsPlaced s
    still_working j s w n h = elim (get_elem?-set_cases r.workers i j w h) [
      | inl e ↦ absurd (n (sym e))
      | inr k ↦ v.working j s k
    ]

    -- A queue that a segment was pushed into.
    length-grown :
        (q : queue.Queue) (s : Segment)
        → queue.items q ≡ queue.items r.blocked_queue ++ (s ∷ [])
        → length (queue.items q) ≡ suc (length (queue.items r.blocked_queue))
    length-grown q s grown =
        ap length grown ∙ length-append (queue.items r.blocked_queue) (s ∷ []) ∙ omega arith

    in_front :
        (q : queue.Queue) (s : Segment)
        → queue.items q ≡ queue.items r.blocked_queue ++ (s ∷ [])
        → (j : ℕ) (t : Segment) → get_elem? (queue.items r.blocked_queue) j ≡ some t
        → get_elem? (queue.items q) j ≡ some t
    in_front q s grown j t at =
        ap (λ (l : List Segment). get_elem? l j) grown
        ∙ get_elem?-append_left (queue.items r.blocked_queue) (s ∷ []) j at

    at_back :
        (q : queue.Queue) (s : Segment)
        → queue.items q ≡ queue.items r.blocked_queue ++ (s ∷ [])
        → get_elem? (queue.items q) (length (queue.items r.blocked_queue)) ≡ some s
    at_back q s grown =
        ap (λ (l : List Segment). get_elem? l (length (queue.items r.blocked_queue))) grown
        ∙ get_elem?-append (queue.items r.blocked_queue) s [] _ refl

    pub pops-IsConsistent :
        (s : Segment) (q : queue.Queue)
        → get_elem? r.workers i ≡ some idle
        → queue.items r.blocked_queue ≡ s ∷ queue.items q
        → IsConsistent (popped queue r i s q)
    pops-IsConsistent s q h e = record {
      balance = omega (arith, v.balance, ap length e, count_busy-set r.workers i (busy s) h);
      room = v.room;
      to_push = v.to_push;
      waiting = λ j t k. v.waiting (suc j) t (ap (λ (l : List Segment). get_elem? l (suc j)) e ∙ k);
      working = λ j t k. elim (get_elem?-set_cases r.workers i j (busy s) k) [
        | inl f ↦ v.waiting 0 t (ap (λ (l : List Segment). get_elem? l 0) e ∙ cc f)
        | inr f ↦ v.working j t f
      ];
      accounted = λ t p. elim (v.accounted t p) [
        | inl still ↦ inl still
        | inr (inl (j, at)) ↦ in_queue t j (ap (λ (l : List Segment). get_elem? l j) (sym e) ∙ at)
        | inr (inr (inl (j, at))) ↦ inr (inr (inl (j, kept j (busy s) h at (λ x. cc x))))
        | inr (inr (inr rest)) ↦ inr (inr (inr rest))
      ];
    }
      where
        in_queue :
            (t : Segment) (j : ℕ)
            → get_elem? (s ∷ queue.items q) j ≡ some t
            → IsAccounted (popped queue r i s q) t
        in_queue t zero at = inr (
            inr (
              inl (
                i,
                get_elem?-set_self r.workers i (busy s) (get_elem?-lt r.workers i h)
                    ∙ ap (λ (x : Segment). some (busy x)) (cc at),
              )))
        in_queue t (suc j) at = inr (inl (j, at))

    pub succeeds-IsConsistent :
        (s : Segment) (answer : Bytes)
        → get_elem? r.workers i ≡ some (busy s)
        → IsAnswer s answer
        → IsConsistent (succeeded queue r i s answer)
    succeeds-IsConsistent s answer h a = record {
      balance = omega (arith, v.balance, count_busy-set r.workers i idle h);
      room = length-set r.answers s.pos_in_array answer ∙ v.room;
      to_push = v.to_push;
      waiting = v.waiting;
      working = λ j t k. still_working j t idle (λ x. cc x) k;
      accounted = λ t p. elim (same_or_not s.pos_in_array t.pos_in_array) [
        | inl e ↦
            let same : s ≡ t = cc (p, v.working i s h, ap (get_elem? segments) e) in
            rw (← same) (inr (inr (inr (inl (answer, stored, a)))))
        | inr n ↦ elim (v.accounted t p) [
          | inl still ↦ inl still
          | inr (inl waits) ↦ inr (inl waits)
          | inr (inr (inl (j, at))) ↦
              inr (inr (inl (j, kept j idle h at (λ x. n (same_place t x)))))
          | inr (inr (inr (inl (b, at, good)))) ↦
              inr (inr (inr (inl (b, get_elem?-set_ne r.answers answer n ∙ at, good))))
          | inr (inr (inr (inr l))) ↦ inr (inr (inr (inr l)))
        ]
      ];
    }
      where
        same_place : (t : Segment) → busy s ≡ busy t → s.pos_in_array ≡ t.pos_in_array
        same_place t x = cc x

        stored : get_elem? (set r.answers s.pos_in_array answer) s.pos_in_array ≡ some answer
        stored =
            get_elem?-set_self r.answers s.pos_in_array answer
              (omega (arith, v.room, get_elem?-lt segments s.pos_in_array (v.working i s h)))

    pub fails-IsConsistent :
        (s : Segment) (q : queue.Queue)
        → get_elem? r.workers i ≡ some (busy s)
        → queue.items q ≡ queue.items r.blocked_queue ++ (s ∷ [])
        → IsConsistent (failed queue r i q)
    fails-IsConsistent s q h grown = record {
      balance =
          omega (arith, v.balance, count_busy-set r.workers i exited h, length-grown q s grown);
      room = v.room;
      to_push = v.to_push;
      waiting = λ j t k.
          elim (get_elem?-snoc (queue.items r.blocked_queue) s j
            (ap (λ (l : List Segment). get_elem? l j) (sym grown) ∙ k)) [
              | inl (e, f) ↦ rw f (v.working i s h)
              | inr f ↦ v.waiting j t f
            ];
      working = λ j t k. still_working j t exited (λ x. cc x) k;
      accounted = λ t p. elim (v.accounted t p) [
        | inl still ↦ inl still
        | inr (inl (j, at)) ↦ inr (inl (j, in_front q s grown j t at))
        | inr (inr (inl (j, at))) ↦ elim (same_or_not i j) [
          | inl e ↦
              let same : s ≡ t = cc (h, at, ap (get_elem? r.workers) e) in
              inr (inl (length (queue.items r.blocked_queue), at_back q s grown ∙ ap some same))
          | inr n ↦ inr (inr (inl (j, get_elem?-set_ne r.workers exited n ∙ at)))
        ]
        | inr (inr (inr rest)) ↦ inr (inr (inr rest))
      ];
    }

    -- The loop of `process` pushes the first of the pending segments.
    pub pushes-IsConsistent :
        (s : Segment) (rest : List Segment) (q : queue.Queue)
        → r.pending ≡ s ∷ rest
        → queue.items q ≡ queue.items r.blocked_queue ++ (s ∷ [])
        → IsConsistent (pushed queue r rest q)
    pushes-IsConsistent s rest q e grown = record {
      balance = omega (arith, v.balance, ap length e, length-grown q s grown);
      room = v.room;
      to_push = λ j t k. v.to_push (suc j) t (ap (λ (l : List Segment). get_elem? l (suc j)) e ∙ k);
      waiting = λ j t k.
          elim (get_elem?-snoc (queue.items r.blocked_queue) s j
            (ap (λ (l : List Segment). get_elem? l j) (sym grown) ∙ k)) [
              | inl (_, f) ↦ rw f (v.to_push 0 s (ap (λ (l : List Segment). get_elem? l 0) e))
              | inr f ↦ v.waiting j t f
            ];
      working = v.working;
      accounted = λ t p. elim (v.accounted t p) [
        | inl (j, at) ↦ was_pending t j (ap (λ (l : List Segment). get_elem? l j) (sym e) ∙ at)
        | inr (inl (j, at)) ↦ inr (inl (j, in_front q s grown j t at))
        | inr (inr others) ↦ inr (inr others)
      ];
    }
      where
        was_pending :
            (t : Segment) (j : ℕ)
            → get_elem? (s ∷ rest) j ≡ some t
            → IsAccounted (pushed queue r rest q) t
        was_pending t zero at =
            inr (inl (length (queue.items r.blocked_queue), at_back q s grown ∙ at))
        was_pending t (suc j) at = inl (j, at)

    pub loses-IsConsistent :
        (s : Segment) → get_elem? r.workers i ≡ some (busy s) → IsConsistent (dropped queue r i)
    loses-IsConsistent s h = record {
      balance = omega (arith, v.balance, count_busy-set r.workers i exited h);
      room = v.room;
      to_push = v.to_push;
      waiting = v.waiting;
      working = λ j t k. still_working j t exited (λ x. cc x) k;
      accounted = λ t p. inr (inr (inr (inr (omega arith))));
    }

    pub stops-IsConsistent : get_elem? r.workers i ≡ some idle → IsConsistent (ended queue r i)
    stops-IsConsistent h = record {
      balance = omega (arith, v.balance, count_busy-set r.workers i exited h);
      room = v.room;
      to_push = v.to_push;
      waiting = v.waiting;
      working = λ j t k. still_working j t exited (λ x. cc x) k;
      accounted = λ t p. elim (v.accounted t p) [
        | inl still ↦ inl still
        | inr (inl waits) ↦ inr (inl waits)
        | inr (inr (inl (j, at))) ↦ inr (inr (inl (j, kept j exited h at (λ x. cc x))))
        | inr (inr (inr rest)) ↦ inr (inr (inr rest))
      ];
    }
