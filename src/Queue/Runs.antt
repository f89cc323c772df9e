-- ===== src/Queue/Runs.antt =====
-- Whole runs of the queue: what the calls return, in order.
use re_boot.Base.{ℕ, ◌+◌, ◌^◌, ◌<◌, ◌≡◌, refl, ap, arith, lt→ltb, ne→==}
use re_boot.Base.{Option, none, some, List, [], ◌∷◌, ◌++◌, length, length-append}
use mathlib.Core.Option
use re_boot.Queue.{
  Heap, State, queue_init, queue_push, queue_pop, queue_try_pop, Popped, waits, returns, refused,
  faulted, found, take_node,
}
use re_boot.Queue.Chain.{Holds}
use re_boot.Queue.Fifo.{queue_push-Holds, take-Holds, empty_size}

-- `queue_try_pop` refuses on an empty queue, and otherwise finds the oldest message.
try_pop_empty : (s : State) → Holds s [] → queue_try_pop s ≡ refused
unfolding queue_try_pop
try_pop_empty s h = rw (empty_size s h) refl

try_pop_taken :
    (s s' : State) (msg : ℕ)
    → 0 < s.1.size
    → take_node s ≡ returns msg s'
    → queue_try_pop s ≡ found msg s'
unfolding queue_try_pop
try_pop_taken s s' msg pos run = rw (lt→ltb 0 s.1.size pos, run) refl

pop_taken :
    (s s' : State) (msg : ℕ)
    → 0 < s.1.size
    → take_node s ≡ returns msg s'
    → queue_pop s ≡ returns msg s'
unfolding queue_pop
pop_taken s s' msg pos run = rw (ne→== s.1.size 0 (λ e. omega arith)) run

try_pop_oldest :
    (s : State) (msg : ℕ) (msgs : List ℕ)
    → Holds s (msg ∷ msgs)
    → (s' : State) × (queue_try_pop s ≡ found msg s') × Holds s' msgs
try_pop_oldest s msg msgs h =
    let (pos, (s', run, rest)) = take-Holds s msg msgs h in
    (s', try_pop_taken s s' msg pos run, rest)

pub data Op : Type 0 where
  push : ℕ → Op
  try_pop : Op

-- The answers of the calls of `queue_try_pop` in a run; the outer `none` is a fault.
unfoldable pub answers_of : List Op → State → Option (List (Option ℕ))
answers_of [] s = some []
answers_of (push msg ∷ ops) s = elim (queue_push msg s) [
  | none ↦ none
  | some s' ↦ answers_of ops s'
]
answers_of (try_pop ∷ ops) s = elim (queue_try_pop s) [
  | refused ↦ Option.map (λ later. none ∷ later) (answers_of ops s)
  | faulted ↦ none
  | found msg s' ↦ Option.map (λ later. some msg ∷ later) (answers_of ops s')
]

-- The same run on a list of messages.
unfoldable pub fifo_answers : List Op → List ℕ → List (Option ℕ)
fifo_answers [] msgs = []
fifo_answers (push msg ∷ ops) msgs = fifo_answers ops (msgs ++ msg ∷ [])
fifo_answers (try_pop ∷ ops) [] = none ∷ fifo_answers ops []
fifo_answers (try_pop ∷ ops) (msg ∷ msgs) = some msg ∷ fifo_answers ops msgs

-- Any run of pushes and tries, on a queue that holds some messages, makes no access to a node that was
-- freed or is NULL, and answers as a list does, first in, first out; fewer than 2^64 messages.
pub answers_of-Holds :
    (ops : List Op) (s : State) (msgs : List ℕ)
    → Holds s msgs
    → length msgs + length ops < 2 ^ 64
    → answers_of ops s ≡ some (fifo_answers ops msgs)
unfolding answers_of fifo_answers
answers_of-Holds [] s msgs h small = refl
answers_of-Holds (push msg ∷ ops) s msgs h small =
    let (s', run, h') = queue_push-Holds msg s msgs h (omega arith) in
    rw (run, answers_of)
      (answers_of-Holds ops s' (msgs ++ msg ∷ []) h' (omega (arith, length-append msgs (msg ∷ []))))
answers_of-Holds (try_pop ∷ ops) s [] h small =
    rw (try_pop_empty s h, answers_of)
      (ap (Option.map (λ later. none ∷ later)) (answers_of-Holds ops s [] h (omega arith)))
answers_of-Holds (try_pop ∷ ops) s (msg ∷ msgs) h small =
    let (s', run, h') = try_pop_oldest s msg msgs h in
    rw (run, answers_of)
      (ap (Option.map (λ later. some msg ∷ later)) (answers_of-Holds ops s' msgs h' (omega arith)))

-- An initialised queue holds nothing, whatever the heap.
pub queue_init-Holds : (heap : Heap) → Holds (heap, queue_init) []
unfolding queue_init
queue_init-Holds heap =
    ([], record { chain = refl; distinct = tt; tail_is = refl; size_is = refl }, refl)

-- `queue_pop` waits exactly on an empty queue; otherwise it returns the oldest message and leaves the
-- others.
abbrev pub PopOutcome : List ℕ → Popped → Type 0
PopOutcome [] r = r ≡ waits
PopOutcome (msg ∷ msgs) r = (s' : State) × (r ≡ returns msg s') × Holds s' msgs

pub queue_pop-PopOutcome :
    (s : State) (msgs : List ℕ) → Holds s msgs → PopOutcome msgs (queue_pop s)
unfolding queue_pop
queue_pop-PopOutcome s [] h = rw (empty_size s h) refl
queue_pop-PopOutcome s (msg ∷ msgs) h =
    let (pos, (s', run, rest)) = take-Holds s msg msgs h in (s', pop_taken s s' msg pos run, rest)
