-- ===== src/Queue.antt =====
-- thread/queues.c: the message queue, a linked list of nodes from `malloc`. The heap is a list of
-- cells, a pointer to a node the number of its cell, NULL is `none`; a freed cell is empty, and an
-- access to no node is a fault. The mutex makes each operation one step; `malloc` succeeds.
pub mod Chain
pub mod Fifo
pub mod Runs
pub mod Destroy
pub mod Examples
use re_boot.Base.{ℕ, zero, suc, ◌+◌, ◌-◌, ◌%◌, ◌^◌, ltb, ◌==◌, if◌then◌else◌, Option, none, some}
use re_boot.Base.{List, [], ◌∷◌, ◌++◌, length, get_or, set}

-- `queue_node_t`; a message is a pointer, so a number.
pub record Node : Type 0 where
  pub msg : ℕ
  pub next : Option ℕ

abbrev pub Heap : Type 0
Heap = List (Option Node)

abbrev pub cell : Heap → ℕ → Option Node
cell heap a = get_or heap a none

-- `queue_t`, without the mutex and the condition.
pub record Queue : Type 0 where
  pub head : Option ℕ
  pub tail : Option ℕ
  pub size : ℕ

abbrev pub State : Type 0
State = Heap × Queue

pub queue_init : Queue
queue_init = record { head = none; tail = none; size = 0 }

-- `q->tail->next = node`
pub link : Heap → ℕ → ℕ → Option Heap
link heap a node = elim (cell heap a) [
  | none ↦ none
  | some old ↦ some (set heap a (some (record old { next = some node })))
]

-- `none` is a fault.
pub queue_push : ℕ → State → Option State
unfolding link
queue_push msg (heap, q) =
    let node = length heap in
    let heap' = heap ++ some (record { msg = msg; next = none }) ∷ [] in
    let size' = (q.size + 1) % 2 ^ 64 in
    elim q.tail [
      | none ↦ some (heap', record { head = some node; tail = some node; size = size' })
      | some last ↦ elim (link heap' last node) [
        | none ↦ none
        | some heap'' ↦ some (heap'', record { head = q.head; tail = some node; size = size' })
      ]
    ]

-- What `queue_pop` comes to: it waits, or it returns a message.
pub data Popped : Type 0 where
  waits fault : Popped
  returns : ℕ → State → Popped

-- The part that takes the first node off and frees it.
pub take_node : State → Popped
take_node (heap, q) = elim q.head [
  | none ↦ fault
  | some a ↦ elim (cell heap a) [
    | none ↦ fault
    | some node ↦ returns node.msg (
      set heap a none,
      record {
        head = node.next;
        tail = elim node.next [ none ↦ none | some b ↦ q.tail ];
        size = q.size - 1;
      },
    )
  ]
]

pub queue_pop : State → Popped
unfolding take_node
queue_pop (heap, q) = if q.size == 0 then waits else take_node (heap, q)

-- What `queue_try_pop` returns: false, or true and a message.
pub data Tried : Type 0 where
  refused faulted : Tried
  found : ℕ → State → Tried

pub queue_try_pop : State → Tried
unfolding take_node
queue_try_pop (heap, q) =
    if ltb 0 q.size
    then elim (take_node (heap, q)) [
      | waits ↦ faulted
      | fault ↦ faulted
      | returns msg s ↦ found msg s
    ]
    else refused

pub queue_size : State → ℕ
queue_size (heap, q) = q.size

-- The loop of `queue_destroy`, with a bound on its rounds.
pub free_nodes : ℕ → Heap → Option ℕ → Option Heap
free_nodes zero heap p = none
free_nodes (suc fuel) heap none = some heap
free_nodes (suc fuel) heap (some a) = elim (cell heap a) [
  | none ↦ none
  | some node ↦ free_nodes fuel (set heap a none) node.next
]

-- The heap that is left; a queue of that size needs one round more to see the end.
pub queue_destroy : State → Option Heap
unfolding free_nodes
queue_destroy (heap, q) = free_nodes (q.size + 1) heap q.head
