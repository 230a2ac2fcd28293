-- ===== src/Kernel/Fat32/Ended.antt =====
-- The end of a sector of the root directory that gets one more entry.
use arona_os.Prelude.{
  ℕ, zero, suc, ◌+◌, ◌*◌, ◌<◌, ◌≤◌, ◌≡◌, ◌≢◌, sym, ap, ◌∙◌, subst, inl, inr, false, some, nat_eq,
  ltb, arith, Bool-cases,
}
use arona_os.Kernel.Fat32.{Bytes}
use arona_os.Kernel.Fat32.Directory.{is_free_entry, find_slot}
use arona_os.Kernel.Fat32.Slots.{IsUsable}
use arona_os.Kernel.Fat32.Found.{
  not_free_or, some-none, some-injective, find_slot-free, find_slot-taken,
}
use arona_os.Kernel.Fat32.Names.{IsEnded, Entered, find_slot_free}

-- The entries in front of the first free one are in use.
find_slot_first :
    (n e start f : ℕ) (b : Bytes)
    → find_slot n e b ≡ some start
    → e ≤ f
    → f * 32 < start
    → is_free_entry (b (f * 32)) ≡ false
unfolding find_slot
find_slot_first zero e start f b h low small = absurd (some-none (sym h))
find_slot_first (suc n) e start f b h low small = elim (Bool-cases (is_free_entry (b (e * 32)))) [
  | inl free ↦
      let at : e * 32 ≡ start = some-injective (sym (find_slot-free n e b free) ∙ h) in
      absurd (omega (arith, at, low, small))
  | inr taken ↦ elim (Bool-cases (nat_eq f e)) [
    | inl same ↦
        let q : e ≡ f = ground (arith, same) in
        subst (λ x. is_free_entry (b (x * 32)) ≡ false) q taken
    | inr later ↦
        find_slot_first n (e + 1) start f b (sym (find_slot-taken n e b taken) ∙ h)
          (ground (arith, later, low)) small
  ]
]

-- Behind the first entry with a zero byte the sector has none in use, as before.
module _ (start : ℕ) (short b b' : Bytes) (usable : IsUsable short) (ended : IsEnded b)
    (entered : Entered start short b b') where
  pub IsEnded-Entered : find_slot 16 0 b ≡ some start → IsEnded b'
  IsEnded-Entered slot e small zero_ =
      let (g, at, low, free) = find_slot_free 16 0 start b slot in
      let first : b' (start + 0) ≡ short 0 = entered.name 0 (omega arith) in
      let here : e * 32 ≢ start = λ q.
        let p : e * 32 ≡ start + 0 = omega (arith, q) in
        usable.0 (sym first ∙ (sym (ap b' p) ∙ zero_)) in
      elim (Bool-cases (ltb e g)) [
        | inl front ↦
            let lt : e * 32 < start = ground (arith, front, at) in
            let taken =
              not_free_or (b (e * 32)) (find_slot_first 16 0 start e b slot (omega arith) lt) in
            let z : b (e * 32) ≡ 0 = sym (entered.before (e * 32) lt) ∙ zero_ in
            absurd (ground (arith, taken.0, z))
        | inr back ↦
            let le : start + 32 ≤ e * 32 = ground (arith, back, at, here) in
            let z : b (e * 32) ≡ 0 = sym (entered.behind (e * 32) le) ∙ zero_ in
            entered.behind ((e + 1) * 32) (omega (arith, le)) ∙ ended e small z
      ]
