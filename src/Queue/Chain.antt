-- ===== src/Queue/Chain.antt =====
-- Chains of nodes in a heap that changes.
use re_boot.Base.{ℕ, zero, suc, ◌<◌, ◌≡◌, ◌≢◌, refl, sym, ap, ◌∙◌, arith}
use re_boot.Base.{Option, none, some, List, [], ◌∷◌, ◌++◌, map, length, set, All, All-append}
use re_boot.Base.{get_or-set_self, get_or-set_ne, get_or_beyond, dec_lt}
use mathlib.Core.Path.{subst}
use mathlib.Core.Option
use re_boot.Queue.{Node, Heap, cell, Queue, State}

-- The nodes from a pointer on: their cells and their messages.
abbrev pub Chain : Heap → Option ℕ → List (ℕ × ℕ) → Type 0
Chain heap p [] = p ≡ none
Chain heap p ((a, msg) ∷ nodes) =
    (p ≡ some a)
    × ((next : Option ℕ) × (cell heap a ≡ some (record { msg = msg; next = next }))
        × Chain heap next nodes)

abbrev pub Distinct : List (ℕ × ℕ) → Type 0
Distinct [] = Unit
Distinct (n ∷ nodes) = All (λ m. m.0 ≢ n.0) nodes × Distinct nodes

abbrev pub last_of : List (ℕ × ℕ) → Option ℕ
last_of [] = none
last_of ((a, msg) ∷ []) = some a
last_of (n ∷ m ∷ nodes) = last_of (m ∷ nodes)

pub record IsQueue (heap : Heap) (q : Queue) (nodes : List (ℕ × ℕ)) : Type 0 where
  pub chain : Chain heap q.head nodes
  pub distinct : Distinct nodes
  pub tail_is : q.tail ≡ last_of nodes
  pub size_is : q.size ≡ length nodes

-- The queue holds these messages, the oldest first.
abbrev pub Holds : State → List ℕ → Type 0
Holds s msgs = (nodes : List (ℕ × ℕ)) × IsQueue s.0 s.1 nodes × (map (λ n. n.1) nodes ≡ msgs)

pub get_or-append :
    (heap : Heap) (c : Option Node) (a : ℕ)
    → a < length heap
    → cell (heap ++ c ∷ []) a ≡ cell heap a
get_or-append [] c a h = absurd (omega arith)
get_or-append (x ∷ heap) c zero h = refl
get_or-append (x ∷ heap) c (suc a) h = get_or-append heap c a (omega arith)

pub get_or-last : (heap : Heap) (c : Option Node) → cell (heap ++ c ∷ []) (length heap) ≡ c
get_or-last [] c = refl
get_or-last (x ∷ heap) c = get_or-last heap c

pub some-injective : {A : Type 0} {x y : A} → some x ≡ some y → x ≡ y
some-injective {A} {x} {y} e = ap (λ o. Option.get_or o x) e

pub some≢none : {A : Type 0} → (x : A) → some x ≢ none
some≢none x e = cc

-- A node's cell is in the heap.
pub in_heap : (heap : Heap) (a : ℕ) (node : Node) → cell heap a ≡ some node → a < length heap
in_heap heap a node e = elim (dec_lt a (length heap)) [
  | yes lt ↦ lt
  | no ge ↦ absurd (some≢none node (sym e ∙ get_or_beyond heap a none (omega arith)))
]

-- A heap that has the same cells for the nodes has the same chain.
abbrev pub SameCells : Heap → Heap → List (ℕ × ℕ) → Type 0
SameCells heap heap' nodes = All (λ n. cell heap' n.0 ≡ cell heap n.0) nodes

pub Chain-SameCells :
    (heap heap' : Heap) (p : Option ℕ) (nodes : List (ℕ × ℕ))
    → SameCells heap heap' nodes
    → Chain heap p nodes
    → Chain heap' p nodes
Chain-SameCells heap heap' p [] same c = c
Chain-SameCells heap heap' p ((a, msg) ∷ nodes) same (e, (next, at, rest)) =
    (e, (next, same.0 ∙ at, Chain-SameCells heap heap' next nodes same.1 rest))

-- Every node of a chain is in the heap.
pub Chain-in_heap :
    (heap : Heap) (p : Option ℕ) (nodes : List (ℕ × ℕ))
    → Chain heap p nodes
    → All (λ n. n.0 < length heap) nodes
Chain-in_heap heap p [] c = tt
Chain-in_heap heap p ((a, msg) ∷ nodes) (e, (next, at, rest)) =
    (in_heap heap a (record { msg = msg; next = next }) at, Chain-in_heap heap next nodes rest)

pub set-SameCells :
    (heap : Heap) (a : ℕ) (c : Option Node) (nodes : List (ℕ × ℕ))
    → All (λ n. n.0 ≢ a) nodes
    → SameCells heap (set heap a c) nodes
set-SameCells heap a c [] h = tt
set-SameCells heap a c (n ∷ nodes) h =
    (get_or-set_ne heap a n.0 c none (λ e. h.0 (sym e)), set-SameCells heap a c nodes h.1)

pub append-SameCells :
    (heap : Heap) (c : Option Node) (nodes : List (ℕ × ℕ))
    → All (λ n. n.0 < length heap) nodes
    → SameCells heap (heap ++ c ∷ []) nodes
append-SameCells heap c [] h = tt
append-SameCells heap c (n ∷ nodes) h =
    (get_or-append heap c n.0 h.0, append-SameCells heap c nodes h.1)

-- What holds of every cell number holds of the last.
pub last-All :
    (P : ℕ → Type 0) (nodes : List (ℕ × ℕ)) (t : ℕ)
    → All (λ n. P n.0) nodes
    → last_of nodes ≡ some t
    → P t
last-All P [] t h e = absurd (some≢none t (sym e))
last-All P ((a, msg) ∷ []) t h e = subst P (some-injective e) h.0
last-All P (n ∷ m ∷ nodes) t h e = last-All P (m ∷ nodes) t h.1 e

-- The last node points nowhere.
pub last_cell :
    (heap : Heap) (p : Option ℕ) (nodes : List (ℕ × ℕ)) (t : ℕ)
    → Chain heap p nodes
    → last_of nodes ≡ some t
    → (msg : ℕ) × (cell heap t ≡ some (record { msg = msg; next = none }))
last_cell heap p [] t c e = absurd (some≢none t (sym e))
last_cell heap p ((a, msg) ∷ []) t (_, (next, at, rest)) e = (
  msg,
  ap (cell heap) (sym (some-injective e))
      ∙ at
      ∙ ap (λ n. some (record { msg = msg; next = n })) rest,
)
last_cell heap p (n ∷ m ∷ nodes) t (_, (next, at, rest)) e =
    last_cell heap next (m ∷ nodes) t rest e

abbrev node_of : ℕ → Option ℕ → Option Node
node_of msg next = some (record { msg = msg; next = next })

same_msg : (m d : ℕ) (p q : Option ℕ) → node_of m p ≡ node_of d q → m ≡ d
same_msg m d p q e = ap (λ (n : Node). n.msg) (some-injective e)

-- A node behind the last one.
pub Chain-link :
    (heap : Heap) (t m b msg : ℕ) (p : Option ℕ) (nodes : List (ℕ × ℕ))
    → Chain heap p nodes
    → Distinct nodes
    → last_of nodes ≡ some t
    → cell heap t ≡ some (record { msg = m; next = none })
    → cell heap b ≡ some (record { msg = msg; next = none })
    → b ≢ t
    → Chain (set heap t (some (record { msg = m; next = some b }))) p (nodes ++ (b, msg) ∷ [])
Chain-link heap t m b msg p [] c d e ct cb ne = absurd (some≢none t (sym e))
Chain-link heap t m b msg p ((a, x) ∷ []) (ep, (next, at, rest)) d e ct cb ne =
    let node : Option Node = some (record { msg = m; next = some b }) in
    let same : a ≡ t = some-injective e in
    let written : cell (set heap t node) t ≡ node =
      get_or-set_self heap t node none (in_heap heap t _ ct) in
    let named : m ≡ x = same_msg m x none next (sym ct ∙ ap (cell heap) (sym same) ∙ at) in
    (
      ep,
      (
        some b,
        ap (cell (set heap t node)) same
            ∙ written
            ∙ ap (λ y. some (record { msg = y; next = some b })) named,
        (refl, (none, get_or-set_ne heap t b node none (λ e'. ne (sym e')) ∙ cb, refl)),
      ),
    )
Chain-link heap t m b msg p ((a, x) ∷ n ∷ nodes) (ep, (next, at, rest)) d e ct cb ne =
    let node : Option Node = some (record { msg = m; next = some b }) in
    let other : t ≢ a = last-All (λ k. k ≢ a) (n ∷ nodes) t d.0 e in
    (
      ep,
      (
        next,
        get_or-set_ne heap t a node none other ∙ at,
        Chain-link heap t m b msg next (n ∷ nodes) rest d.1 e ct cb ne,
      ),
    )

pub Distinct-append :
    (nodes : List (ℕ × ℕ)) (b msg : ℕ)
    → Distinct nodes
    → All (λ n. n.0 < b) nodes
    → Distinct (nodes ++ (b, msg) ∷ [])
Distinct-append [] b msg d h = (tt, tt)
Distinct-append (n ∷ nodes) b msg d h = (
  All-append (λ m. m.0 ≢ n.0) nodes ((b, msg) ∷ []) d.0 ((λ e. omega (arith, h.0, e)), tt),
  Distinct-append nodes b msg d.1 h.1,
)

pub last_of-append : (nodes : List (ℕ × ℕ)) (b msg : ℕ) → last_of (nodes ++ (b, msg) ∷ []) ≡ some b
last_of-append [] b msg = refl
last_of-append (n ∷ []) b msg = refl
last_of-append (n ∷ m ∷ nodes) b msg = last_of-append (m ∷ nodes) b msg
