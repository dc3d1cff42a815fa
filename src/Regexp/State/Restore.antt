-- ===== src/Regexp/State/Restore.antt =====
-- Backtracking in cxx/quickjs/libregexp.c: going back after `push_state` restores what was saved.
use flutter_quickjs.Prelude.{ℕ, ◌≤◌, ◌≡◌, refl, arith}
use flutter_quickjs.Prelude.{Bool, false, some, ◌∷◌, length, take, drop}
use flutter_quickjs.Prelude.{Option-cases, inl, inr, length-take, take-append, ◌∙◌}
use flutter_quickjs.Regexp.State.{Context, Machine, Saved, split}
use flutter_quickjs.Regexp.State.{push_state, grow_states, resume, recurse}
use flutter_quickjs.Regexp.State.{restore_stack, pop_state, pop_state1}

-- What `push_state` saves.
abbrev saved_state : Machine → ℕ → ℕ → Saved
saved_state m pc cptr = record {
  kind = split;
  count = 0;
  cptr = cptr;
  pc = pc;
  capture = m.capture;
  stack = take m.stack_len m.stack;
}

pushed_states :
    (grant : ℕ → Bool) (s : Context) (m n : Machine) (pc cptr : ℕ)
    → push_state grant s m pc cptr split 0 ≡ some n
    → n.states ≡ saved_state m pc cptr ∷ m.states
unfolding push_state
pushed_states grant s m n pc cptr e = elim (Option-cases (grow_states grant s m)) [
  | inl g ↦ absurd (ground arith)
  | inr (size, g) ↦ ground arith
]

-- After `push_state` for a split, a failure at any later machine with the same saved states goes on
-- from the alternative: at its pc and position, with the captures, the values in use on the stack
-- and the older states that there were before, whatever the first way has done to them.
pub recurse-push_state :
    (grant : ℕ → Bool) (s : Context) (m n m' : Machine) (pc cptr : ℕ)
    → m.stack_len ≤ length m.stack
    → push_state grant s m pc cptr split 0 ≡ some n
    → m'.states ≡ n.states
    → (r : Machine) × (recurse s m' false m'.states ≡ resume r)
      × (r.pc ≡ pc)
      × (r.cptr ≡ cptr)
      × (r.capture ≡ m.capture)
      × (r.stack_len ≡ m.stack_len)
      × (take r.stack_len r.stack ≡ take m.stack_len m.stack)
      × (r.states ≡ m.states)
unfolding recurse pop_state pop_state1 restore_stack
recurse-push_state grant s m n m' pc cptr u e h =
    let t = h ∙ pushed_states grant s m n pc cptr e in
    let inuse = take m.stack_len m.stack in
    (
      pop_state m' (saved_state m pc cptr) m.states,
      rw t refl,
      refl,
      refl,
      refl,
      omega (arith, length-take m.stack_len m.stack),
      take-append inuse (drop (length inuse) m'.stack) (length inuse) refl,
      refl,
    )
