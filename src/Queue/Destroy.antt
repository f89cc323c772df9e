-- ===== src/Queue/Destroy.antt =====
-- What `queue_destroy` leaves.
use re_boot.Base.{
  ℕ, zero, suc, ◌+◌, ◌≡◌, ◌≢◌, refl, ap, ◌∙◌, arith, Option, none, some, List, [], ◌∷◌, length, set,
  All,
}
use re_boot.Base.{get_or-set_self, get_or-set_ne}
use re_boot.Queue.{Node, Heap, cell, Queue, free_nodes, queue_destroy}
use re_boot.Queue.Chain.{Chain, Distinct, IsQueue, Chain-SameCells, set-SameCells, in_heap}

-- The heap after the nodes were freed: their cells are empty, and no other cell has changed.
pub record IsFreed (heap heap' : Heap) (nodes : List (ℕ × ℕ)) : Type 0 where
  pub freed : All (λ n. cell heap' n.0 ≡ none) nodes
  pub kept : (a : ℕ) → All (λ n. n.0 ≢ a) nodes → cell heap' a ≡ cell heap a

free_step :
    (fuel : ℕ) (heap : Heap) (a : ℕ) (node : Node)
    → cell heap a ≡ some node
    → free_nodes (suc fuel) heap (some a) ≡ free_nodes fuel (set heap a none) node.next
unfolding free_nodes
free_step fuel heap a node e = rw (e, free_nodes) refl

free_nodes-IsFreed :
    (fuel : ℕ) (heap : Heap) (p : Option ℕ) (nodes : List (ℕ × ℕ))
    → Chain heap p nodes
    → Distinct nodes
    → fuel ≡ length nodes + 1
    → (heap' : Heap) × (free_nodes fuel heap p ≡ some heap') × IsFreed heap heap' nodes
free_nodes-IsFreed zero heap p nodes c d e = absurd (omega arith)
free_nodes-IsFreed (suc fuel) heap p [] c d e =
    (heap, rw c (unfold free_nodes in refl), record { freed = tt; kept = λ a h. refl })
free_nodes-IsFreed (suc fuel) heap p ((a, msg) ∷ nodes) (ep, (next, at, rest)) d e =
    let heap1 = set heap a none in
    let (heap', run, v) =
      free_nodes-IsFreed fuel heap1 next nodes
        (Chain-SameCells heap heap1 next nodes (set-SameCells heap a none nodes d.0) rest) d.1
        (omega arith) in
    let empty : cell heap1 a ≡ none = get_or-set_self heap a none none (in_heap heap a _ at) in
    (
      heap',
      rw ep (free_step fuel heap a (record { msg = msg; next = next }) at ∙ run),
      record {
        freed = (v.kept a d.0 ∙ empty, v.freed);
        kept = λ b h. v.kept b h.1 ∙ get_or-set_ne heap a b none none h.0;
      },
    )

-- `queue_destroy` comes to the end of the list without touching a freed node, every node of the queue
-- is freed, and no other cell of the heap changes.
pub queue_destroy-IsFreed :
    (heap : Heap) (q : Queue) (nodes : List (ℕ × ℕ))
    → IsQueue heap q nodes
    → (heap' : Heap) × (queue_destroy (heap, q) ≡ some heap') × IsFreed heap heap' nodes
unfolding queue_destroy
queue_destroy-IsFreed heap q nodes v =
    free_nodes-IsFreed (q.size + 1) heap q.head nodes v.chain v.distinct (ap (λ n. n + 1) v.size_is)
