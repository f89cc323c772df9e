-- ===== src/Queue/Fifo.antt =====
-- The linked list against a list of messages, first in, first out.
use re_boot.Base.{ℕ, suc, ◌+◌, ◌-◌, ◌%◌, ◌^◌, ◌<◌, ◌≡◌, refl, sym, ap, ◌∙◌, arith}
use re_boot.Base.{Option, none, some, List, [], ◌∷◌, ◌++◌, map, length, get_or, set, drop}
use re_boot.Base.{length-append}
use re_boot.Queue.{Node, Heap, cell, Queue, State, queue_push, returns, take_node}
use re_boot.Queue.Chain.{
  Chain, last_of, IsQueue, Holds, get_or-last, Chain-SameCells, Chain-in_heap, set-SameCells,
}
use re_boot.Queue.Chain.{
  append-SameCells, last_cell, Chain-link, Distinct-append, last_of-append, last-All,
}

-- A push on a queue with nodes, and on an empty one.
push_linked :
    (msg last m : ℕ) (heap : Heap) (q : Queue)
    → q.tail ≡ some last
    → let node = length heap in
      let heap' = heap ++ some (record { msg = msg; next = none }) ∷ [] in
      cell heap' last ≡ some (record { msg = m; next = none })
      → queue_push msg (heap, q)
        ≡ some (
          set heap' last (some (record { msg = m; next = some node })),
          record { head = q.head; tail = some node; size = (q.size + 1) % 2 ^ 64 },
        )
unfolding queue_push
push_linked msg last m heap q e c = rw (e, c) refl

push_first :
    (msg : ℕ) (heap : Heap) (q : Queue)
    → q.tail ≡ none
    → queue_push msg (heap, q)
      ≡ some (
        heap ++ some (record { msg = msg; next = none }) ∷ [],
        record {
          head = some (length heap);
          tail = some (length heap);
          size = (q.size + 1) % 2 ^ 64;
        },
      )
unfolding queue_push
push_first msg heap q e = rw e refl

last_some : (n : ℕ × ℕ) (nodes : List (ℕ × ℕ)) → (t : ℕ) × (last_of (n ∷ nodes) ≡ some t)
last_some n [] = (n.0, refl)
last_some n (m ∷ nodes) = last_some m nodes

push-IsQueue :
    (msg : ℕ) (heap : Heap) (q : Queue) (nodes : List (ℕ × ℕ))
    → IsQueue heap q nodes
    → length nodes + 1 < 2 ^ 64
    → (s : State) × (queue_push msg (heap, q) ≡ some s)
      × IsQueue s.0 s.1 (nodes ++ (length heap, msg) ∷ [])
push-IsQueue msg heap q [] v small =
    let node : Option Node = some (record { msg = msg; next = none }) in
    let heap' = heap ++ node ∷ [] in
    (
      (
        heap',
        record {
          head = some (length heap);
          tail = some (length heap);
          size = (q.size + 1) % 2 ^ 64;
        },
      ),
      push_first msg heap q v.tail_is,
      record {
        chain = (refl, (none, get_or-last heap node, refl));
        distinct = (tt, tt);
        tail_is = refl;
        size_is = omega (arith, v.size_is);
      },
    )
push-IsQueue msg heap q (n ∷ nodes) v small =
    let (last, is_last) = last_some n nodes in
    let node : Option Node = some (record { msg = msg; next = none }) in
    let heap' = heap ++ node ∷ [] in
    let inside = Chain-in_heap heap q.head (n ∷ nodes) v.chain in
    let chain' =
      Chain-SameCells heap heap' q.head (n ∷ nodes) (append-SameCells heap node (n ∷ nodes) inside)
        v.chain in
    let (m, ends) = last_cell heap' q.head (n ∷ nodes) last chain' is_last in
    let below : last < length heap =
      last-All (λ k. k < length heap) (n ∷ nodes) last inside is_last in
    (
      (
        set heap' last (some (record { msg = m; next = some (length heap) })),
        record { head = q.head; tail = some (length heap); size = (q.size + 1) % 2 ^ 64 },
      ),
      push_linked msg last m heap q (v.tail_is ∙ is_last) ends,
      record {
        chain =
            Chain-link heap' last m (length heap) msg q.head (n ∷ nodes) chain' v.distinct is_last
              ends (get_or-last heap node) (λ e. omega arith);
        distinct = Distinct-append (n ∷ nodes) (length heap) msg v.distinct inside;
        tail_is = sym (last_of-append (n ∷ nodes) (length heap) msg);
        size_is = omega (arith, v.size_is, length-append (n ∷ nodes) ((length heap, msg) ∷ []));
      },
    )

take_first :
    (heap : Heap) (q : Queue) (a msg : ℕ) (next : Option ℕ)
    → q.head ≡ some a
    → cell heap a ≡ some (record { msg = msg; next = next })
    → take_node (heap, q)
      ≡ returns msg (
        set heap a none,
        record {
          head = next;
          tail = elim next [ none ↦ none | some b ↦ q.tail ];
          size = q.size - 1;
        },
      )
unfolding take_node
take_first heap q a msg next e c = rw (e, c) refl

-- The tail after the first node is gone.
tail_after :
    (heap : Heap) (next tail : Option ℕ) (n : ℕ × ℕ) (nodes : List (ℕ × ℕ))
    → tail ≡ last_of (n ∷ nodes)
    → Chain heap next nodes
    → (elim next [ none ↦ none | some b ↦ tail ]) ≡ last_of nodes
tail_after heap next tail n [] e c = rw c refl
tail_after heap next tail n (m ∷ nodes) e c = rw (c.0) e

take-IsQueue :
    (heap : Heap) (q : Queue) (a msg : ℕ) (nodes : List (ℕ × ℕ))
    → IsQueue heap q ((a, msg) ∷ nodes)
    → (s : State) × (take_node (heap, q) ≡ returns msg s) × IsQueue s.0 s.1 nodes
take-IsQueue heap q a msg nodes v =
    let (e, (next, at, rest)) = v.chain in
    (
      (
        set heap a none,
        record {
          head = next;
          tail = elim next [ none ↦ none | some b ↦ q.tail ];
          size = q.size - 1;
        },
      ),
      take_first heap q a msg next e at,
      record {
        chain =
            Chain-SameCells heap (set heap a none) next nodes
              (set-SameCells heap a none nodes v.distinct.0) rest;
        distinct = v.distinct.1;
        tail_is = tail_after heap next q.tail (a, msg) nodes v.tail_is rest;
        size_is = omega (arith, v.size_is);
      },
    )

-- The messages of the nodes behind a push.
messages-append :
    (nodes : List (ℕ × ℕ)) (a msg : ℕ)
    → map (λ n. n.1) (nodes ++ (a, msg) ∷ []) ≡ map (λ n. n.1) nodes ++ msg ∷ []
messages-append [] a msg = refl
messages-append (n ∷ nodes) a msg = ap (λ (t : List ℕ). n.1 ∷ t) (messages-append nodes a msg)

-- A push on a queue that holds fewer than 2^64 - 1 messages never faults, and the message is the last.
pub queue_push-Holds :
    (msg : ℕ) (s : State) (msgs : List ℕ)
    → Holds s msgs
    → length msgs + 1 < 2 ^ 64
    → (s' : State) × (queue_push msg s ≡ some s') × Holds s' (msgs ++ msg ∷ [])
queue_push-Holds msg (heap, q) msgs (nodes, v, e) small =
    let (s', run, v') =
      push-IsQueue msg heap q nodes v
        (omega (arith, length-messages nodes, ap (λ (t : List ℕ). length t) e)) in
    (
      s',
      run,
      (
        nodes ++ (length heap, msg) ∷ [],
        v',
        messages-append nodes (length heap) msg ∙ ap (λ (t : List ℕ). t ++ msg ∷ []) e,
      ),
    )
  where
    length-messages :
        (nodes : List (ℕ × ℕ)) → length (map (λ (n : ℕ × ℕ). n.1) nodes) ≡ length nodes
    length-messages [] = refl
    length-messages (n ∷ nodes) = ap suc (length-messages nodes)

-- Taking from an empty queue, and from one that is not.
pub empty_size : (s : State) → Holds s [] → s.1.size ≡ 0
empty_size s ([], v, e) = v.size_is
empty_size s (n ∷ nodes, v, e) = absurd cc

pub take-Holds :
    (s : State) (msg : ℕ) (msgs : List ℕ)
    → Holds s (msg ∷ msgs)
    → (0 < s.1.size) × ((s' : State) × (take_node s ≡ returns msg s') × Holds s' msgs)
take-Holds (heap, q) msg msgs ([], v, e) = absurd cc
take-Holds (heap, q) msg msgs ((a, x) ∷ nodes, v, e) =
    let (s', run, v') = take-IsQueue heap q a x nodes v in
    (
      omega (arith, v.size_is),
      (s', run ∙ ap (λ m. returns m s') (cons-head e), (nodes, v', cons-tail e)),
    )
  where
    cons-head : {x y : ℕ} {xs ys : List ℕ} → ◌≡◌ {A = List ℕ} (x ∷ xs) (y ∷ ys) → x ≡ y
    cons-head {x} e = ap (λ (t : List ℕ). get_or t 0 x) e

    cons-tail : {x y : ℕ} {xs ys : List ℕ} → ◌≡◌ {A = List ℕ} (x ∷ xs) (y ∷ ys) → xs ≡ ys
    cons-tail e = ap (λ (t : List ℕ). drop 1 t) e
