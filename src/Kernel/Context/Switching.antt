-- ===== src/Kernel/Context/Switching.antt =====
-- Tasks that are started by a switch, and tasks that are left and come back.
use arona_os.Prelude.{
  ℕ, ◌+◌, ◌-◌, ◌^◌, ◌<◌, ◌≤◌, ◌≡◌, sym, subst, ◌∙◌, ◌⊎◌, nat_eq, if◌then◌else◌, arith,
}
use arona_os.Kernel.Context.{
  Memory, Registers, Cpu, TaskContext, put_zeros, init_task_stack, switch_to,
}
use arona_os.Kernel.Context.Frames.{IsSaved, IsAway, GoesOn, switch_to-IsSaved, switch_to-GoesOn}

abbrev pub zeros : Registers
zeros = record { rbp = 0; rbx = 0; r12 = 0; r13 = 0; r14 = 0; r15 = 0 }

-- The memory with the new task's stack, and its context at an address.
abbrev pub put_context : ℕ → Memory × TaskContext → Memory
put_context context (mem, task) x = if nat_eq x context then task.rsp else mem x

-- The stack of a new task is that of a task that waits in front of its first instruction.
pub init_task_stack-IsSaved :
    (top entry context : ℕ) (mem : Memory)
    → 56 ≤ top
    → top < 2 ^ 64
    → (context < top - 56) ⊎ (top ≤ context)
    → IsSaved (put_context context (init_task_stack top entry mem)) context (top - 56) zeros entry
unfolding init_task_stack put_zeros
init_task_stack-IsSaved top entry context mem low high apart = record {
  pointer = ground (arith, low);
  high = omega (arith, low, high);
  r15 = ground (arith, low, apart);
  r14 = ground (arith, low, apart);
  r13 = ground (arith, low, apart);
  r12 = ground (arith, low, apart);
  rbx = ground (arith, low, apart);
  rbp = ground (arith, low, apart);
  back = ground (arith, low, apart);
}

-- The first switch to a task whose stack `init_task_stack` has set up jumps to its entry with the
-- stack pointer at the top of its stack and the six registers 0. The stack lies in the 64 bits of
-- the address space, the context is not in the task's part of the stack, and the words that the
-- switch writes for the task that is left (its context and six words below its stack pointer) are
-- not the new task's.
pub switch_to-init_task_stack :
    (c : Cpu) (t top entry : ℕ) (mem : Memory)
    → c.memory ≡ put_context c.rsi (init_task_stack top entry mem)
    → c.rsp ≡ t + 48
    → t + 56 < 2 ^ 64
    → 56 ≤ top
    → top < 2 ^ 64
    → (c.rsi < top - 56) ⊎ (top ≤ c.rsi)
    → IsAway c t c.rsi
    → ((x : ℕ) → top - 56 ≤ x → x < top → IsAway c t x)
    → GoesOn zeros entry top (switch_to c)
switch_to-init_task_stack c t top entry mem set_up at high low top_high apart away clear =
    let s = init_task_stack-IsSaved top entry c.rsi mem low top_high apart in
    let end : top - 56 + 56 ≡ top = omega (arith, low) in
    subst (λ sp. GoesOn zeros entry sp (switch_to c)) end
      (switch_to-GoesOn c t (top - 56) entry zeros at high
        (subst (λ m. IsSaved m c.rsi (top - 56) zeros entry) (sym set_up) s) away
        (λ x a b. clear x a (omega (arith, b, low))))

-- A task that is left by a switch and later is switched to again, from whatever state of the
-- machine, goes on behind the call: at the return address, with its stack pointer behind it and its
-- six registers as they were. The words that the first switch has saved (its context and seven
-- words of its stack) are as they were, the second switch writes to none of them, and the context
-- is not on the stack.
pub switch_to-switch_to :
    (a b : Cpu) (t u : ℕ)
    → a.rsp ≡ t + 48
    → t + 56 < 2 ^ 64
    → (a.rdi < t) ⊎ (t + 56 ≤ a.rdi)
    → b.rsi ≡ a.rdi
    → b.memory a.rdi ≡ (switch_to a).memory a.rdi
    → ((x : ℕ) → t ≤ x → x < t + 56 → b.memory x ≡ (switch_to a).memory x)
    → b.rsp ≡ u + 48
    → u + 56 < 2 ^ 64
    → IsAway b u a.rdi
    → ((x : ℕ) → t ≤ x → x < t + 56 → IsAway b u x)
    → GoesOn a.saved (a.memory a.rsp) (a.rsp + 8) (switch_to b)
switch_to-switch_to a b t u at high apart next kept_context kept below u_high away clear =
    let s = switch_to-IsSaved a t at high apart in
    let still : IsSaved b.memory a.rdi t a.saved (a.memory a.rsp) = record {
      pointer = kept_context ∙ s.pointer;
      high = high;
      r15 = kept t (omega arith) (omega arith) ∙ s.r15;
      r14 = kept (t + 8) (omega arith) (omega arith) ∙ s.r14;
      r13 = kept (t + 16) (omega arith) (omega arith) ∙ s.r13;
      r12 = kept (t + 24) (omega arith) (omega arith) ∙ s.r12;
      rbx = kept (t + 32) (omega arith) (omega arith) ∙ s.rbx;
      rbp = kept (t + 40) (omega arith) (omega arith) ∙ s.rbp;
      back = kept (t + 48) (omega arith) (omega arith) ∙ s.back;
    } in
    let end : t + 56 ≡ a.rsp + 8 = omega (arith, at) in
    subst (λ sp. GoesOn a.saved (a.memory a.rsp) sp (switch_to b)) end
      (switch_to-GoesOn b u t (a.memory a.rsp) a.saved below u_high
        (subst (λ x. IsSaved b.memory x t a.saved (a.memory a.rsp)) (sym next) still)
        (subst (λ x. IsAway b u x) (sym next) away) clear)
