-- ===== src/Kernel/Context/Examples.antt =====
-- Tests of the switch on a machine with two tasks.
use arona_os.Prelude.{◌+◌, ◌≡◌, refl, inl, inr, arith}
use arona_os.Kernel.Context.{
  Registers, Cpu, down, up, execute, run, put_zeros, init_task_stack, switch_to,
}
use arona_os.Kernel.Context.Frames.{GoesOn}
use arona_os.Kernel.Context.Switching.{
  zeros, put_context, switch_to-init_task_stack, switch_to-switch_to,
}

abbrev ones : Registers
ones = record { rbp = 1; rbx = 2; r12 = 3; r13 = 4; r14 = 5; r15 = 6 }

-- The main flow, in front of its switch to a new task.
abbrev main_flow : Cpu
main_flow = record {
  saved = ones;
  rsp = 1048;
  rdi = 3008;
  rsi = 3000;
  rip = 9;
  memory = put_context 3000 (init_task_stack 2000 77 (λ x. x + 1));
}

abbrev in_task : Cpu
in_task = switch_to main_flow

in_task_place : in_task.rip ≡ 77
unfolding switch_to run execute init_task_stack put_zeros down up
in_task_place = refl

switch_to-init_task_stack_example : GoesOn zeros 77 2000 (switch_to main_flow)
switch_to-init_task_stack_example =
    switch_to-init_task_stack main_flow 1000 2000 77 (λ x. x + 1) refl (omega arith) (omega arith)
      (omega arith) (omega arith) (inr (omega arith)) ((λ e. omega (arith, e)), inr (omega arith))
      (λ x low high. ((λ e. omega (arith, e, high)), inr (omega (arith, low))))

-- The task, in front of its switch back.
abbrev task_flow : Cpu
task_flow = record {
  saved = zeros;
  rsp = 1990;
  rdi = 3000;
  rsi = 3008;
  rip = 80;
  memory = in_task.memory;
}

switch_to-switch_to_example : GoesOn ones (main_flow.memory 1048) 1056 (switch_to task_flow)
switch_to-switch_to_example =
    switch_to-switch_to main_flow task_flow 1000 1942 (omega arith) (omega arith)
      (inr (omega arith)) refl refl (λ x low high. refl) (omega arith) (omega arith)
      ((λ e. omega (arith, e)), inr (omega arith))
      (λ x low high. ((λ e. omega (arith, e, high)), inl (omega (arith, high))))
