-- ===== src/Queue/Examples.antt =====
-- A queue of two messages.
use re_boot.Base.{◌≡◌, refl, arith, none, some, List, [], ◌∷◌}
use re_boot.Queue.{Heap, Queue, queue_init, queue_pop, queue_destroy}
use re_boot.Queue.Chain.{IsQueue}
use re_boot.Queue.Runs.{
  Op, push, try_pop, answers_of, fifo_answers, answers_of-Holds, queue_init-Holds, PopOutcome,
  queue_pop-PopOutcome,
}
use re_boot.Queue.Destroy.{IsFreed, queue_destroy-IsFreed}

abbrev calls : List Op
calls = try_pop ∷ push 7 ∷ push 8 ∷ try_pop ∷ push 9 ∷ try_pop ∷ try_pop ∷ []

answers_of-Holds_example :
    answers_of calls ([], queue_init) ≡ some (none ∷ some 7 ∷ some 8 ∷ some 9 ∷ [])
unfolding fifo_answers
answers_of-Holds_example =
    answers_of-Holds calls ([], queue_init) [] (queue_init-Holds []) (omega arith)

-- The second message was pushed to a higher cell.
abbrev heap : Heap
heap = none ∷ some (record { msg = 7; next = some 2 }) ∷ some (record { msg = 8; next = none }) ∷ []

abbrev queue : Queue
queue = record { head = some 1; tail = some 2; size = 2 }

queue-IsQueue : IsQueue heap queue ((1, 7) ∷ (2, 8) ∷ [])
queue-IsQueue = record {
  chain = (refl, (some 2, refl, (refl, (none, refl, refl))));
  distinct = (((λ e. omega arith), tt), (tt, tt));
  tail_is = refl;
  size_is = refl;
}

queue_pop-PopOutcome_example : PopOutcome (7 ∷ 8 ∷ []) (queue_pop (heap, queue))
queue_pop-PopOutcome_example =
    queue_pop-PopOutcome (heap, queue) (7 ∷ 8 ∷ []) ((1, 7) ∷ (2, 8) ∷ [], queue-IsQueue, refl)

queue_destroy-IsFreed_example :
    (heap' : Heap) × (queue_destroy (heap, queue) ≡ some heap')
    × IsFreed heap heap' ((1, 7) ∷ (2, 8) ∷ [])
queue_destroy-IsFreed_example =
    queue_destroy-IsFreed heap queue ((1, 7) ∷ (2, 8) ∷ []) queue-IsQueue
