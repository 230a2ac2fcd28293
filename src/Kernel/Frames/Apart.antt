-- ===== src/Kernel/Frames/Apart.antt =====
-- No frame is handed out twice.
use native.Mathlib.Nat.{mod-eq_of_lt}
use arona_os.Prelude.{
  ℕ, zero, suc, ◌+◌, ◌-◌, ◌*◌, ◌/◌, ◌%◌, ◌^◌, ◌<◌, ◌≤◌, ◌≡◌, sym, ap, subst, ◌∙◌, true, inl, inr,
  List, [], ◌∷◌, ◌++◌, some, get_elem?, keep_on, keep_off, ◌⊎◌, arith, Bool-cases, All,
}
use arona_os.Kernel.Frames.{
  MemoryRegion, init, steps, flat_map, usable_frames, allocate_frame, answer,
}

-- The regions are whole frames, in increasing order from `bound` on, and do not overlap.
abbrev pub IsOrdered : ℕ → List MemoryRegion → Type 0
IsOrdered bound [] = Unit
IsOrdered bound (r ∷ rs) =
    (bound ≤ r.start_addr)
    × (r.start_addr ≤ r.end_addr)
    × ((r.end_addr - r.start_addr) % 4096 ≡ 0)
    × IsOrdered r.end_addr rs

-- The frame lies in a usable region of the map.
abbrev pub IsInside : List MemoryRegion → ℕ → Type 0
IsInside [] a = ⊥
IsInside (r ∷ rs) a =
    ((r.is_usable ≡ true) × (r.start_addr ≤ a) × (a + 4096 ≤ r.end_addr)) ⊎ IsInside rs a

-- Each frame begins where the one before it has ended, or later.
abbrev Follows : ℕ → List ℕ → Type 0
Follows bound [] = Unit
Follows bound (a ∷ later) = (bound ≤ a) × Follows (a + 4096) later

Follows-later :
    (bound start : ℕ) (xs : List ℕ) → bound ≤ start → Follows start xs → Follows bound xs
Follows-later bound start [] h f = tt
Follows-later bound start (a ∷ rest) h f = (omega (arith, h, f.0), f.1)

Follows-steps :
    (count start end_ : ℕ) (xs : List ℕ)
    → start + count * 4096 ≤ end_
    → Follows end_ xs
    → Follows start (steps count start ++ xs)
Follows-steps zero start end_ xs h f = Follows-later start end_ xs (omega (arith, h)) f
Follows-steps (suc count) start end_ xs h f =
    (omega arith, Follows-steps count (start + 4096) end_ xs (omega (arith, h)) f)

Follows-usable_frames :
    (bound : ℕ) (rs : List MemoryRegion) → IsOrdered bound rs → Follows bound (usable_frames rs)
unfolding usable_frames
Follows-usable_frames bound [] h = tt
Follows-usable_frames bound (r ∷ rs) h =
    let rest = Follows-usable_frames r.end_addr rs h.3 in
    elim (Bool-cases r.is_usable) [
      | inl usable ↦
          subst (λ ys. Follows bound (flat_map ys)) (sym (keep_on (λ x. x.is_usable) r rs usable))
            (Follows-later bound r.start_addr _ h.0 (
              Follows-steps ((r.end_addr - r.start_addr + 4095) / 4096) r.start_addr r.end_addr _
                (omega (arith, h.1, h.2)) rest))
      | inr reserved ↦
          subst (λ ys. Follows bound (flat_map ys))
            (sym (keep_off (λ x. x.is_usable) r rs reserved))
            (Follows-later bound r.end_addr _ (omega (arith, h.0, h.1)) rest)
    ]

All-steps :
    (P : ℕ → Type 0) (count start : ℕ) (xs : List ℕ)
    → ((k : ℕ) → k < count → P (start + k * 4096))
    → All P xs
    → All P (steps count start ++ xs)
All-steps P zero start xs h all = all
All-steps P (suc count) start xs h all =
    let here : start + 0 * 4096 ≡ start = omega arith in
    (
      subst P here (h 0 (omega arith)),
      All-steps P count (start + 4096) xs
          (λ k small.
            let next : start + suc k * 4096 ≡ start + 4096 + k * 4096 = omega arith in
            subst P next (h (suc k) (omega (arith, small))))
          all,
    )

All-IsInside :
    (r : MemoryRegion) (rs : List MemoryRegion) (xs : List ℕ)
    → All (IsInside rs) xs
    → All (IsInside (r ∷ rs)) xs
All-IsInside r rs [] h = tt
All-IsInside r rs (x ∷ xs) h = (inr h.0, All-IsInside r rs xs h.1)

usable_frames-IsInside :
    (bound : ℕ) (rs : List MemoryRegion) → IsOrdered bound rs → All (IsInside rs) (usable_frames rs)
unfolding usable_frames
usable_frames-IsInside bound [] h = tt
usable_frames-IsInside bound (r ∷ rs) h =
    let rest = All-IsInside r rs (usable_frames rs) (usable_frames-IsInside r.end_addr rs h.3) in
    elim (Bool-cases r.is_usable) [
      | inl usable ↦
          subst (λ ys. All (IsInside (r ∷ rs)) (flat_map ys))
            (sym (keep_on (λ x. x.is_usable) r rs usable))
            (All-steps (IsInside (r ∷ rs)) ((r.end_addr - r.start_addr + 4095) / 4096) r.start_addr
              _ (λ k small. inl (usable, omega arith, omega (arith, h.1, h.2, small))) rest)
      | inr reserved ↦
          subst (λ ys. All (IsInside (r ∷ rs)) (flat_map ys))
            (sym (keep_off (λ x. x.is_usable) r rs reserved)) rest
    ]

All-get_elem? :
    (P : ℕ → Type 0) (xs : List ℕ) (i : ℕ) {a : ℕ} → All P xs → get_elem? xs i ≡ some a → P a
All-get_elem? P [] i all h = absurd (cc h)
All-get_elem? P (x ∷ xs) zero {a = a} all h = let e : x ≡ a = cc h in subst P e all.0
All-get_elem? P (x ∷ xs) (suc i) all h = All-get_elem? P xs i all.1 h

Follows-bound :
    (bound : ℕ) (xs : List ℕ) (i : ℕ) {a : ℕ}
    → Follows bound xs
    → get_elem? xs i ≡ some a
    → bound ≤ a
Follows-bound bound [] i f h = absurd (cc h)
Follows-bound bound (x ∷ xs) zero {a = a} f h = let e : x ≡ a = cc h in omega (arith, e, f.0)
Follows-bound bound (x ∷ xs) (suc i) f h = omega (arith, f.0, Follows-bound (x + 4096) xs i f.1 h)

Follows-apart :
    (bound : ℕ) (xs : List ℕ) (i j : ℕ) {a b : ℕ}
    → Follows bound xs
    → i < j
    → get_elem? xs i ≡ some a
    → get_elem? xs j ≡ some b
    → a + 4096 ≤ b
Follows-apart bound [] i j f less h k = absurd (cc h)
Follows-apart bound (x ∷ xs) i zero f less h k = absurd (omega (arith, less))
Follows-apart bound (x ∷ xs) zero (suc j) {a = a} f less h k =
    let e : x ≡ a = cc h in omega (arith, e, Follows-bound (x + 4096) xs j f.1 k)
Follows-apart bound (x ∷ xs) (suc i) (suc j) f less h k =
    Follows-apart (x + 4096) xs i j f.1 (omega (arith, less)) h k

answer-get_elem? :
    (i n : ℕ) (memory_map : List MemoryRegion)
    → n + i < 2 ^ 64
    → answer i (record { memory_map = memory_map; next = n })
      ≡ get_elem? (usable_frames memory_map) (n + i)
unfolding answer allocate_frame
answer-get_elem? zero n memory_map small =
    let e : n ≡ n + 0 = omega arith in ap (get_elem? (usable_frames memory_map)) e
answer-get_elem? (suc i) n memory_map small =
    let next : (n + 1) % 2 ^ 64 ≡ n + 1 = mod-eq_of_lt (omega (arith, small)) in
    let place : n + 1 + i ≡ n + suc i = omega arith in
    ap (λ m. answer i (record { memory_map = memory_map; next = m })) next
    ∙ (answer-get_elem? i (n + 1) memory_map (omega (arith, small))
        ∙ ap (get_elem? (usable_frames memory_map)) place)

-- A new allocator hands out, in its first 2 ^ 64 calls, the usable frames of the map in their order,
-- each one once, and nothing more.
pub answer-init :
    (memory_map : List MemoryRegion) (i : ℕ)
    → i < 2 ^ 64
    → answer i (init memory_map) ≡ get_elem? (usable_frames memory_map) i
answer-init memory_map i small =
    answer-get_elem? i 0 memory_map (omega (arith, small))
    ∙ (let e : 0 + i ≡ i = omega arith in ap (get_elem? (usable_frames memory_map)) e)

-- Where the regions of the memory map consist of whole frames and stand in increasing order without
-- overlap, the frames that two of the first 2 ^ 64 calls of a new allocator hand out do not overlap, and
-- each lies in a region that is usable.
pub answers_apart :
    (memory_map : List MemoryRegion) (i j a b : ℕ)
    → IsOrdered 0 memory_map
    → i < j
    → j < 2 ^ 64
    → answer i (init memory_map) ≡ some a
    → answer j (init memory_map) ≡ some b
    → (a + 4096 ≤ b) × IsInside memory_map a × IsInside memory_map b
answers_apart memory_map i j a b ordered less small h k =
    let follows = Follows-usable_frames 0 memory_map ordered in
    let inside = usable_frames-IsInside 0 memory_map ordered in
    let at_i = sym (answer-init memory_map i (omega (arith, less, small))) ∙ h in
    let at_j = sym (answer-init memory_map j small) ∙ k in
    (
      Follows-apart 0 (usable_frames memory_map) i j follows less at_i at_j,
      All-get_elem? (IsInside memory_map) (usable_frames memory_map) i inside at_i,
      All-get_elem? (IsInside memory_map) (usable_frames memory_map) j inside at_j,
    )
