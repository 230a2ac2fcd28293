-- ===== src/Kernel/Context.antt =====
-- arona_kernel/src/context.rs and `Task::new` of arona_kernel/src/task.rs: the saved state of a task
-- and the switch between two tasks, on a machine that has the instructions of `switch_to`. The
-- memory holds 64-bit words at addresses that are multiples of 8.
pub mod Frames
pub mod Switching
mod Examples
use arona_os.Prelude.{ℕ, zero, suc, ◌+◌, ◌-◌, ◌%◌, ◌^◌, List, [], ◌∷◌, nat_eq, if◌then◌else◌}

abbrev pub Memory : Type 0
Memory = ℕ → ℕ

abbrev pub put_word : ℕ → ℕ → Memory → Memory
put_word a v mem x = if nat_eq x a then v else mem x

-- The registers that `switch_to` saves.
pub data Register : Type 0 where
  rbp : Register
  rbx : Register
  r12 : Register
  r13 : Register
  r14 : Register
  r15 : Register

pub record Registers : Type 0 where
  pub rbp : ℕ
  pub rbx : ℕ
  pub r12 : ℕ
  pub r13 : ℕ
  pub r14 : ℕ
  pub r15 : ℕ

pub record Cpu : Type 0 where
  pub saved : Registers
  pub rsp : ℕ
  pub rdi : ℕ
  pub rsi : ℕ
  pub rip : ℕ
  pub memory : Memory

abbrev pub get : Register → Registers → ℕ
get Register.rbp r = r.rbp
get Register.rbx r = r.rbx
get Register.r12 r = r.r12
get Register.r13 r = r.r13
get Register.r14 r = r.r14
get Register.r15 r = r.r15

abbrev pub set : Register → ℕ → Registers → Registers
set Register.rbp v r = record r { rbp = v }
set Register.rbx v r = record r { rbx = v }
set Register.r12 v r = record r { r12 = v }
set Register.r13 v r = record r { r13 = v }
set Register.r14 v r = record r { r14 = v }
set Register.r15 v r = record r { r15 = v }

-- The instructions of the body of `switch_to`.
pub data Instruction : Type 0 where
  push : Register → Instruction
  pop : Register → Instruction
  store_rsp : Instruction
  load_rsp : Instruction
  ret : Instruction

-- The stack pointer wraps in 64 bits.
unfoldable pub down : ℕ → ℕ
down sp = (sp + (2 ^ 64 - 8)) % 2 ^ 64

unfoldable pub up : ℕ → ℕ
up sp = (sp + 8) % 2 ^ 64

-- `store_rsp` is `mov [rdi], rsp`, and `load_rsp` is `mov rsp, [rsi]`.
unfoldable pub execute : Instruction → Cpu → Cpu
execute (push r) c = record c {
  rsp = down c.rsp;
  memory = put_word (down c.rsp) (get r c.saved) c.memory;
}
execute (pop r) c = record c { saved = set r (c.memory c.rsp) c.saved; rsp = up c.rsp }
execute store_rsp c = record c { memory = put_word c.rdi c.rsp c.memory }
execute load_rsp c = record c { rsp = c.memory c.rsi }
execute ret c = record c { rip = c.memory c.rsp; rsp = up c.rsp }

unfoldable pub run : List Instruction → Cpu → Cpu
unfolding execute
run [] c = c
run (i ∷ is) c = run is (execute i c)

abbrev pub switch_body : List Instruction
switch_body =
    push Register.rbp
    ∷ push Register.rbx
    ∷ push Register.r12
    ∷ push Register.r13
    ∷ push Register.r14
    ∷ push Register.r15
    ∷ store_rsp
    ∷ load_rsp
    ∷ pop Register.r15
    ∷ pop Register.r14
    ∷ pop Register.r13
    ∷ pop Register.r12
    ∷ pop Register.rbx
    ∷ pop Register.rbp
    ∷ ret
    ∷ []

unfoldable pub switch_to : Cpu → Cpu
unfolding run
switch_to c = run switch_body c

pub record TaskContext : Type 0 where
  pub rsp : ℕ

abbrev pub empty : TaskContext
empty = record { rsp = 0 }

-- The loop that puts `count` zeros below `sp`.
unfoldable pub put_zeros : ℕ → ℕ → Memory → Memory × ℕ
put_zeros zero sp mem = (mem, sp)
put_zeros (suc count) sp mem = put_zeros count (sp - 8) (put_word (sp - 8) 0 mem)

unfoldable pub init_task_stack : ℕ → ℕ → Memory → Memory × TaskContext
unfolding put_zeros
init_task_stack stack_top entry mem =
    let (mem', sp) = put_zeros 6 (stack_top - 8) (put_word (stack_top - 8) entry mem) in
    (mem', record { rsp = sp })
