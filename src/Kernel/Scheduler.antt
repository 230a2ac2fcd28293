-- ===== src/Kernel/Scheduler.antt =====
-- arona_kernel/src/scheduler.rs: the round robin. The contexts are `TaskContext`s of any type, and
-- the jump between two of them, `switch_to`, is assembly: a call of `schedule` answers the places
-- of the contexts that it jumps between.
mod Examples
use native.Mathlib.Nat.{mod-lt, mod-eq_of_lt, mod-add-mod, mod-eq-sub-mod}
use arona_os.Prelude.{
  ℕ, zero, suc, ◌+◌, ◌%◌, ◌<◌, ◌≤◌, ◌≡◌, refl, sym, ap, ◌∙◌, List, [], ◌∷◌, ◌++◌, Option, none,
  some, length, ltb, leb, ◌-◌, Bool-cases, inl, inr, if◌then◌else◌, arith,
}

pub record Scheduler (C : Type 0) : Type 0 where
  pub contexts : List C
  pub current : ℕ

-- `SCHEDULER`, with the context of the kernel's main flow as task 0.
unfoldable pub init : {C : Type 0} → C → Option (Scheduler C)
init empty = some (record { contexts = empty ∷ []; current = 0 })

-- `none` is the panic of `expect`.
unfoldable pub spawn : {C : Type 0} → C → Option (Scheduler C) → Option (Scheduler C)
spawn context none = none
spawn context (some s) = some (record s { contexts = s.contexts ++ context ∷ [] })

abbrev pub advance : {C : Type 0} → Scheduler C → Scheduler C
advance s = record s { current = (s.current + 1) % length s.contexts }

unfoldable pub schedule :
    {C : Type 0} → Option (Scheduler C) → Option (Scheduler C) × Option (ℕ × ℕ)
schedule none = (none, none)
schedule (some s) =
    if ltb (length s.contexts) 2
    then (some s, none)
    else (some (advance s), some (s.current, (advance s).current))

-- `n` calls in a row.
unfoldable pub ticks : {C : Type 0} → ℕ → Option (Scheduler C) → Option (Scheduler C)
ticks zero s = s
ticks (suc n) s = ticks n (schedule s).0

schedule-some :
    {C : Type 0} (s : Scheduler C)
    → 2 ≤ length s.contexts
    → (schedule (some s)).0 ≡ some (advance s)
unfolding schedule
schedule-some s h = ground (arith, h)

next_place : (m n len : ℕ) → 2 ≤ len → ((m + 1) % len + n) % len ≡ (m + suc n) % len
next_place m n len h = mod-add-mod (m + 1) len n ∙ ap (λ x. x % len) (omega arith)

-- With two or more tasks, one of them the current one, `n` calls bring the turn to the task `n` places on, around the ring, and
-- leave the tasks as they are.
pub ticks-some :
    {C : Type 0} (n : ℕ) (s : Scheduler C)
    → 2 ≤ length s.contexts
    → s.current < length s.contexts
    → ticks n (some s) ≡ some (record s { current = (s.current + n) % length s.contexts })
unfolding ticks
ticks-some zero s h lt =
    ap (λ c. some (record s { current = c }))
      (sym (ap (λ x. x % length s.contexts) (omega arith) ∙ mod-eq_of_lt lt))
ticks-some (suc n) s h lt =
    ap (ticks n) (schedule-some s h)
    ∙ (ticks-some n (advance s) h (mod-lt (s.current + 1) (omega (arith, h)))
        ∙ ap (λ c. some (record s { current = c })) (next_place s.current n (length s.contexts) h))

-- Adding the length of the ring once more changes no place.
around : (m len : ℕ) → m < len → (m + len) % len ≡ m
around m len h =
    let less : m + len - len ≡ m = omega arith in
    mod-eq-sub-mod (omega arith) ∙ (ap (λ x. x % len) less ∙ mod-eq_of_lt h)

steps_to : (c t len : ℕ) → c < len → t < len → (n : ℕ) × (n < len) × ((c + n) % len ≡ t)
steps_to c t len hc ht = elim (Bool-cases (leb c t)) [
  | inl before ↦
      let low : c ≤ t = ground (arith, before) in
      let e : c + (t - c) ≡ t = omega (arith, low) in
      (t - c, omega (arith, ht), ap (λ x. x % len) e ∙ mod-eq_of_lt ht)
  | inr behind ↦
      let high : t < c = ground (arith, behind) in
      let e : c + (t + len - c) ≡ t + len = omega (arith, high, hc) in
      (t + len - c, omega (arith, high, hc), ap (λ x. x % len) e ∙ around t len ht)
]

-- With two or more tasks, one of them the current one, every task gets the turn: fewer calls than there
-- are tasks make it the current one, and all tasks are still there.
pub ticks_reach :
    {C : Type 0} (s : Scheduler C) (task : ℕ)
    → 2 ≤ length s.contexts
    → s.current < length s.contexts
    → task < length s.contexts
    → (n : ℕ) × (n < length s.contexts) × (ticks n (some s) ≡ some (record s { current = task }))
ticks_reach s task h current_lt task_lt =
    let (n, few, there) = steps_to s.current task (length s.contexts) current_lt task_lt in
    (n, few, ticks-some n s h current_lt ∙ ap (λ c. some (record s { current = c })) there)
