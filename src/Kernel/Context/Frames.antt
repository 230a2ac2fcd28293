-- ===== src/Kernel/Context/Frames.antt =====
-- What `switch_to` saves and restores.
use arona_os.Prelude.{ℕ, ◌+◌, ◌^◌, ◌<◌, ◌≤◌, ◌≡◌, ◌≢◌, refl, sym, ap, ◌∙◌, ◌⊎◌, inr, arith}
use arona_os.Kernel.Context.{Memory, Registers, Cpu, down, up, execute, run, switch_to}

-- A task that waits: its stack pointer `sp` is in the context, and its registers and the address
-- where it goes on are on its stack.
pub record IsSaved (mem : Memory) (context sp : ℕ) (r : Registers) (address : ℕ) : Type 0 where
  pub pointer : mem context ≡ sp
  pub high : sp + 56 < 2 ^ 64
  pub r15 : mem sp ≡ r.r15
  pub r14 : mem (sp + 8) ≡ r.r14
  pub r13 : mem (sp + 16) ≡ r.r13
  pub r12 : mem (sp + 24) ≡ r.r12
  pub rbx : mem (sp + 32) ≡ r.rbx
  pub rbp : mem (sp + 40) ≡ r.rbp
  pub back : mem (sp + 48) ≡ address

down_lem : (s t : ℕ) → s ≡ t + 8 → t + 8 < 2 ^ 64 → down s ≡ t
unfolding down
down_lem s t e h = omega (arith, e, h)

up_lem : (s t : ℕ) → s ≡ t → t + 8 < 2 ^ 64 → up s ≡ t + 8
unfolding up
up_lem s t e h = omega (arith, e, h)

-- The words that a switch writes are the context's and six on the stack.
abbrev pub IsAway : Cpu → ℕ → ℕ → Type 0
IsAway c t x = (x ≢ c.rdi) × ((x < t) ⊎ (t + 48 ≤ x))

module _ (c : Cpu) (t : ℕ) (at : c.rsp ≡ t + 48) (high : t + 56 < 2 ^ 64) where
  p₁ : down c.rsp ≡ t + 40
  p₁ = down_lem c.rsp (t + 40) (omega (arith, at)) (omega (arith, high))

  p₂ : down (down c.rsp) ≡ t + 32
  p₂ = down_lem (down c.rsp) (t + 32) (omega (arith, p₁)) (omega (arith, high))

  p₃ : down (down (down c.rsp)) ≡ t + 24
  p₃ = down_lem (down (down c.rsp)) (t + 24) (omega (arith, p₂)) (omega (arith, high))

  p₄ : down (down (down (down c.rsp))) ≡ t + 16
  p₄ = down_lem (down (down (down c.rsp))) (t + 16) (omega (arith, p₃)) (omega (arith, high))

  p₅ : down (down (down (down (down c.rsp)))) ≡ t + 8
  p₅ = down_lem (down (down (down (down c.rsp)))) (t + 8) (omega (arith, p₄)) (omega (arith, high))

  p₆ : down (down (down (down (down (down c.rsp))))) ≡ t
  p₆ = down_lem (down (down (down (down (down c.rsp))))) t p₅ (omega (arith, high))

  pub switch_to-kept : (x : ℕ) → IsAway c t x → (switch_to c).memory x ≡ c.memory x
  unfolding switch_to run execute
  switch_to-kept x away = ground (arith, p₁, p₂, p₃, p₄, p₅, p₆, away)

  -- The switch leaves the task waiting, where its context is not one of the words on its stack.
  pub switch_to-IsSaved :
      (c.rdi < t) ⊎ (t + 56 ≤ c.rdi) → IsSaved (switch_to c).memory c.rdi t c.saved (c.memory c.rsp)
  unfolding switch_to run execute
  switch_to-IsSaved apart = record {
    pointer = ground (arith, p₆);
    high = high;
    r15 = ground (arith, p₁, p₂, p₃, p₄, p₅, p₆, apart);
    r14 = ground (arith, p₁, p₂, p₃, p₄, p₅, p₆, apart);
    r13 = ground (arith, p₁, p₂, p₃, p₄, p₅, p₆, apart);
    r12 = ground (arith, p₁, p₂, p₃, p₄, p₅, p₆, apart);
    rbx = ground (arith, p₁, p₂, p₃, p₄, p₅, p₆, apart);
    rbp = ground (arith, p₁, p₂, p₃, p₄, p₅, p₆, apart);
    back =
        switch_to-kept (t + 48) (ground (arith, apart), inr (omega arith)) ∙ ap c.memory (sym at);
  }

-- A task that goes on: its registers, and the stack pointer behind the address.
pub record GoesOn (r : Registers) (address sp : ℕ) (c : Cpu) : Type 0 where
  pub registers : c.saved ≡ r
  pub stack : c.rsp ≡ sp
  pub place : c.rip ≡ address

-- The pops of `switch_to`.
popped : Memory → ℕ → Registers
popped mem sp = record {
  r15 = mem sp;
  r14 = mem (up sp);
  r13 = mem (up (up sp));
  r12 = mem (up (up (up sp)));
  rbx = mem (up (up (up (up sp))));
  rbp = mem (up (up (up (up (up sp)))));
}

module _ (mem : Memory) (context sp address : ℕ) (r : Registers)
    (s : IsSaved mem context sp r address) where
  u₁ : up sp ≡ sp + 8
  u₁ = up_lem sp sp refl (omega (arith, s.high))

  u₂ : up (up sp) ≡ sp + 16
  u₂ = up_lem (up sp) (sp + 8) u₁ (omega (arith, s.high)) ∙ omega arith

  u₃ : up (up (up sp)) ≡ sp + 24
  u₃ = up_lem (up (up sp)) (sp + 16) u₂ (omega (arith, s.high)) ∙ omega arith

  u₄ : up (up (up (up sp))) ≡ sp + 32
  u₄ = up_lem (up (up (up sp))) (sp + 24) u₃ (omega (arith, s.high)) ∙ omega arith

  u₅ : up (up (up (up (up sp)))) ≡ sp + 40
  u₅ = up_lem (up (up (up (up sp)))) (sp + 32) u₄ (omega (arith, s.high)) ∙ omega arith

  u₆ : up (up (up (up (up (up sp))))) ≡ sp + 48
  u₆ = up_lem (up (up (up (up (up sp))))) (sp + 40) u₅ (omega (arith, s.high)) ∙ omega arith

  u₇ : up (up (up (up (up (up (up sp)))))) ≡ sp + 56
  u₇ = up_lem (up (up (up (up (up (up sp)))))) (sp + 48) u₆ (omega (arith, s.high)) ∙ omega arith

  popped-IsSaved : popped mem sp ≡ r
  unfolding popped
  popped-IsSaved = λ i. record {
    r15 = s.r15 i;
    r14 = (ap mem u₁ ∙ s.r14) i;
    r13 = (ap mem u₂ ∙ s.r13) i;
    r12 = (ap mem u₃ ∙ s.r12) i;
    rbx = (ap mem u₄ ∙ s.rbx) i;
    rbp = (ap mem u₅ ∙ s.rbp) i;
  }

-- A switch to a task that waits, where the words of that task are none of those that the switch
-- writes.
pub switch_to-GoesOn :
    (c : Cpu) (t sp address : ℕ) (r : Registers)
    → c.rsp ≡ t + 48
    → t + 56 < 2 ^ 64
    → IsSaved c.memory c.rsi sp r address
    → IsAway c t c.rsi
    → ((x : ℕ) → sp ≤ x → x < sp + 56 → IsAway c t x)
    → GoesOn r address (sp + 56) (switch_to c)
unfolding switch_to run execute popped
switch_to-GoesOn c t sp address r at high s away apart =
    let kept = switch_to-kept c t at high in
    let mem = (switch_to c).memory in
    let here : IsSaved mem c.rsi sp r address = record {
      pointer = kept c.rsi away ∙ s.pointer;
      high = s.high;
      r15 = kept sp (apart sp (omega arith) (omega arith)) ∙ s.r15;
      r14 = kept (sp + 8) (apart (sp + 8) (omega arith) (omega arith)) ∙ s.r14;
      r13 = kept (sp + 16) (apart (sp + 16) (omega arith) (omega arith)) ∙ s.r13;
      r12 = kept (sp + 24) (apart (sp + 24) (omega arith) (omega arith)) ∙ s.r12;
      rbx = kept (sp + 32) (apart (sp + 32) (omega arith) (omega arith)) ∙ s.rbx;
      rbp = kept (sp + 40) (apart (sp + 40) (omega arith) (omega arith)) ∙ s.rbp;
      back = kept (sp + 48) (apart (sp + 48) (omega arith) (omega arith)) ∙ s.back;
    } in
    record {
      registers = ap (popped mem) here.pointer ∙ popped-IsSaved mem c.rsi sp address r here;
      stack =
          ap (λ x. up (up (up (up (up (up (up x))))))) here.pointer
          ∙ u₇ mem c.rsi sp address r here;
      place =
          ap (λ x. mem (up (up (up (up (up (up x))))))) here.pointer
          ∙ (ap mem (u₆ mem c.rsi sp address r here) ∙ here.back);
    }
