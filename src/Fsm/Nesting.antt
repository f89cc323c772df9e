-- ===== src/Fsm/Nesting.antt =====
-- The exits and entries of a transition nest: inner states are left first and entered last.
use re_boot.Base.{
  length-append, ◌≤◌, ℕ, ◌≡◌, ◌≢◌, refl, sym, ap, ◌∙◌, arith, ◌==◌, if◌then◌else◌, true, false,
  Option, none, some,
}
use re_boot.Base.{
  List, [], ◌∷◌, ◌++◌, Bool-cases, ==→eq, eq→==, length, leb, append-nil, append_assoc, inl, inr,
  ◌⊎◌,
}
use re_boot.Fsm.{
  State, same_state, find_exit_target, up_to, exits, entries, Call, exit, act, entry, Transition,
  FsmEvent, transition_calls,
}

-- The states that are active, the innermost first, after some calls: a state can be left only as the
-- innermost one.
unfoldable pub active_after : List Call → List ℕ → Option (List ℕ)
active_after [] active = some active
active_after (exit s ∷ calls) [] = none
active_after (exit s ∷ calls) (x ∷ active) =
    let rest = active_after calls active in if s == x then rest else none
active_after (act a e ∷ calls) active = active_after calls active
active_after (entry s ∷ calls) active = active_after calls (s ∷ active)

-- Of the states on the way from `to` up, only `current` itself has its identifier.
abbrev pub IsConsistent : State → State → Type 0
IsConsistent current to =
    (below a : State) → below ++ a ≡ to → same_state a current ≡ true → a ≡ current

same_self : (n : ℕ) → (n == n) ≡ true
same_self n = eq→== n n refl

-- Leaving the states below `rest`.
exits_leave :
    (below rest : List ℕ) (calls : List Call)
    → active_after (exits below ++ calls) (below ++ rest) ≡ active_after calls rest
unfolding exits active_after
exits_leave [] rest calls = refl
exits_leave (s ∷ below) rest calls = rw (same_self s) (exits_leave below rest calls)

entries_enter :
    (stack rest : List ℕ) (calls : List Call)
    → active_after (entries stack ++ calls) rest ≡ active_after calls (stack ++ rest)
unfolding entries active_after
entries_enter [] rest calls = refl
entries_enter (s ∷ stack) rest calls =
    ap (λ (t : List Call). active_after t rest) (append_assoc (entries stack) (entry s ∷ []) calls)
    ∙ entries_enter stack rest (entry s ∷ calls)

-- The search finds NULL, or a state with the identifier of the current one; and the states that are
-- stacked are those before it.
record IsSplit (to current target : State) : Type 0 where
  split : up_to to target ++ target ≡ to
  ends : (target ≡ []) ⊎ (same_state target current ≡ true)

up_to-null : (s : State) → up_to s [] ≡ s
unfolding up_to same_state
up_to-null [] = refl
up_to-null (x ∷ s) = ap (λ (t : State). x ∷ t) (up_to-null s)

same_trans : (a b c : State) → same_state a c ≡ true → same_state b c ≡ true → same_state a b ≡ true
unfolding same_state
same_trans [] [] c h h' = refl
same_trans [] (y ∷ b) [] h h' = cc
same_trans [] (y ∷ b) (z ∷ c) h h' = cc
same_trans (x ∷ a) [] [] h h' = cc
same_trans (x ∷ a) [] (z ∷ c) h h' = cc
same_trans (x ∷ a) (y ∷ b) [] h h' = cc
same_trans (x ∷ a) (y ∷ b) (z ∷ c) h h' = eq→== x y (==→eq x z h ∙ sym (==→eq y z h'))

find_found :
    (x : ℕ) (to current : State)
    → same_state (x ∷ to) current ≡ true
    → find_exit_target (x ∷ to) current ≡ x ∷ to
unfolding find_exit_target
find_found x to current e = rw (e, find_exit_target) refl

find_further :
    (x : ℕ) (to current : State)
    → same_state (x ∷ to) current ≡ false
    → find_exit_target (x ∷ to) current ≡ find_exit_target to current
unfolding find_exit_target
find_further x to current e = rw (e, find_exit_target) refl

up_to-here :
    (x : ℕ) (s target : State) → same_state (x ∷ s) target ≡ true → up_to (x ∷ s) target ≡ []
unfolding up_to
up_to-here x s target e = rw (e, up_to) refl

up_to-further :
    (x : ℕ) (s target : State)
    → same_state (x ∷ s) target ≡ false
    → up_to (x ∷ s) target ≡ x ∷ up_to s target
unfolding up_to
up_to-further x s target e = rw (e, up_to) refl

same_state_refl : (s : State) → same_state s s ≡ true
unfolding same_state
same_state_refl [] = refl
same_state_refl (x ∷ s) = same_self x

-- A state that is not the current one is not one with its identifier.
apart :
    (x : ℕ) (to current target : State)
    → same_state (x ∷ to) current ≡ false
    → same_state target current ≡ true
    → same_state (x ∷ to) target ≡ false
apart x to current target e same = elim (Bool-cases (same_state (x ∷ to) target)) [
  | inr miss ↦ miss
  | inl hit ↦ absurd (
      true≢false (
        sym (
          same_trans (x ∷ to) current target hit
            (same_trans current target current (same_state_refl current) same))
        ∙ e))
]
  where
    true≢false : true ≢ false
    true≢false h = cc

find_exit_target-IsSplit : (to current : State) → IsSplit to current (find_exit_target to current)
find_exit_target-IsSplit [] current =
    unfold find_exit_target up_to in record { split = refl; ends = inl refl }
find_exit_target-IsSplit (x ∷ to) current = elim (Bool-cases (same_state (x ∷ to) current)) [
  | inl e ↦ rw (find_found x to current e) (record {
    split =
        ap (λ (t : State). t ++ x ∷ to)
          (up_to-here x to (x ∷ to) (same_trans (x ∷ to) (x ∷ to) current e e));
    ends = inr e;
  })
  | inr e ↦
      let v = find_exit_target-IsSplit to current in
      let target = find_exit_target to current in
      rw (find_further x to current e) (record {
        split = elim v.ends [
          | inl null ↦ rw null (up_to-null_append (x ∷ to))
          | inr same ↦
              ap (λ (t : State). t ++ target)
                (up_to-further x to target (apart x to current target e same))
              ∙ ap (λ (t : State). x ∷ t) v.split
        ];
        ends = v.ends;
      })
]
  where
    up_to-null_append : (s : State) → up_to s [] ++ [] ≡ s
    up_to-null_append s = append-nil (up_to s []) ∙ up_to-null s

-- The calls of a transition, where the stack is large enough.
calls_of : State → Transition → FsmEvent → List Call
calls_of current t event =
    let target = find_exit_target t.to current in
    exits (up_to current target) ++ act t.action event ∷ entries (up_to t.to target)

shorter : (a b to : State) → a ++ b ≡ to → length a ≤ length to
shorter a b to e = omega (arith, length-append a b, ap (λ (t : State). length t) e)

transition_calls-calls_of :
    (current : State) (t : Transition) (event : FsmEvent)
    → length t.to ≤ 10
    → transition_calls current t event ≡ some (calls_of current t event)
unfolding transition_calls calls_of
transition_calls-calls_of current t event small =
    let target = find_exit_target t.to current in
    let v = find_exit_target-IsSplit t.to current in
    rw
      (
        le→leb_true (length (up_to t.to target)) 10
            (omega (arith, shorter (up_to t.to target) target t.to v.split)),
        transition_calls,
      )
      refl
  where
    le→leb_true : (a b : ℕ) → a ≤ b → leb a b ≡ true
    le→leb_true a b h = ground arith

up_to_self : (s : State) → up_to s s ≡ []
up_to_self [] = unfold up_to in refl
up_to_self (x ∷ s) = up_to-here x s (x ∷ s) (same_state_refl (x ∷ s))

-- The states that are left: all, or none, where the next state is the current one or below it.
exits_target :
    (current target : State) (calls : List Call)
    → (target ≡ []) ⊎ (target ≡ current)
    → active_after (exits (up_to current target) ++ calls) current ≡ active_after calls target
exits_target current target calls (inl null) = rw null (
    ap (λ (t : State). active_after (exits t ++ calls) current) (up_to-null current)
    ∙ ap (active_after (exits current ++ calls)) (sym (append-nil current))
    ∙ exits_leave current [] calls)
exits_target current target calls (inr same) = rw same (
    ap (λ (t : State). active_after (exits t ++ calls) current) (up_to_self current)
    ∙ (unfold exits in refl))

calls_of-active :
    (current : State) (t : Transition) (event : FsmEvent)
    → IsConsistent current t.to
    → active_after (calls_of current t event) current ≡ some t.to
unfolding calls_of active_after
calls_of-active current t event known =
    let target = find_exit_target t.to current in
    let v = find_exit_target-IsSplit t.to current in
    let stack = up_to t.to target in
    let ends : (target ≡ []) ⊎ (target ≡ current) = elim v.ends [
      | inl null ↦ inl null
      | inr same ↦ inr (known stack target v.split same)
    ] in
    exits_target current target (act t.action event ∷ entries stack) ends
    ∙ ap (λ (c : List Call). active_after c target) (sym (append-nil (entries stack)))
    ∙ entries_enter stack target []
    ∙ ap some v.split

-- From the states that are active in the current state, the exits and entries of a transition, whose
-- next state has at most ten states up to the root, leave always the innermost active state, and end
-- with those of the next state active.
pub transition_calls-active :
    (current : State) (t : Transition) (event : FsmEvent)
    → length t.to ≤ 10
    → IsConsistent current t.to
    → (calls : List Call) × (transition_calls current t event ≡ some calls)
      × (active_after calls current ≡ some t.to)
transition_calls-active current t event small known = (
  calls_of current t event,
  transition_calls-calls_of current t event small,
  calls_of-active current t event known,
)
