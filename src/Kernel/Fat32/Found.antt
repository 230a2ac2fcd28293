-- ===== src/Kernel/Fat32/Found.antt =====
-- The entry that takes the first free slot of a sector is found by its name.
use arona_os.Prelude.{
  ℕ, zero, suc, ◌+◌, ◌*◌, ◌<◌, ◌≤◌, ◌≡◌, ◌≢◌, refl, sym, ap, ◌∙◌, subst, inl, inr, true, false,
  Option, none, some, nat_eq, if◌then◌else◌, arith, Bool-cases,
}
use arona_os.Kernel.Fat32.{Bytes}
use arona_os.Kernel.Fat32.Directory.{is_free_entry, find_slot, name_matches, find_name}
use arona_os.Kernel.Fat32.Slots.{IsUsable}

pub not_free_or : (x : ℕ) → is_free_entry x ≡ false → (nat_eq x 0 ≡ false) × (nat_eq x 0xe5 ≡ false)
not_free_or x h = (ground (arith, h), ground (arith, h))

pub some-none : {x : ℕ} → ◌≢◌ {A = Option ℕ} (some x) none
some-none e = cc

pub some-injective : {x y : ℕ} → ◌≡◌ {A = Option ℕ} (some x) (some y) → x ≡ y
some-injective e = cc

pub find_slot-free :
    (n e : ℕ) (b : Bytes)
    → is_free_entry (b (e * 32)) ≡ true
    → find_slot (suc n) e b ≡ some (e * 32)
unfolding find_slot
find_slot-free n e b free = rw (free, find_slot) refl

pub find_slot-taken :
    (n e : ℕ) (b : Bytes)
    → is_free_entry (b (e * 32)) ≡ false
    → find_slot (suc n) e b ≡ find_slot n (e + 1) b
unfolding find_slot
find_slot-taken n e b taken = rw (taken, find_slot) refl

pub find_slot_place : (n e start : ℕ) (b : Bytes) → find_slot n e b ≡ some start → e * 32 ≤ start
unfolding find_slot
find_slot_place zero e start b h = absurd (some-none (sym h))
find_slot_place (suc n) e start b h = elim (Bool-cases (is_free_entry (b (e * 32)))) [
  | inl free ↦ omega (arith, some-injective (sym (find_slot-free n e b free) ∙ h))
  | inr taken ↦
      omega (arith, find_slot_place n (e + 1) start b (sym (find_slot-taken n e b taken) ∙ h))
]

name_matches-true :
    (n i start : ℕ) (short b : Bytes)
    → ((k : ℕ) → k < n → b (start + (i + k)) ≡ short (i + k))
    → name_matches n i start short b ≡ true
unfolding name_matches
name_matches-true zero i start short b same = refl
name_matches-true (suc n) i start short b same =
    let e : i + 0 ≡ i = omega arith in
    let here : b (start + i) ≡ short i =
      subst (λ k. b (start + k) ≡ short k) e (same 0 (omega arith)) in
    let fact : nat_eq (b (start + i)) (short i) ≡ true = ground (arith, here) in
    let rest = name_matches-true n (i + 1) start short b (λ k h.
      let p : i + suc k ≡ i + 1 + k = omega arith in
      subst (λ x. b (start + x) ≡ short x) p (same (suc k) (omega (arith, h)))) in
    rw (fact, name_matches) rest

pub name_matches-cong :
    (n i start : ℕ) (short a b : Bytes)
    → ((k : ℕ) → k < n + i → a (start + k) ≡ b (start + k))
    → name_matches n i start short a ≡ name_matches n i start short b
unfolding name_matches
name_matches-cong zero i start short a b same = refl
name_matches-cong (suc n) i start short a b same =
    let here = same i (omega arith) in
    let rest = name_matches-cong n (i + 1) start short a b (λ k h. same k (omega (arith, h))) in
    rw (here, rest, name_matches) refl

pub find_name-suc :
    (n e : ℕ) (short b : Bytes)
    → nat_eq (b (e * 32)) 0 ≡ false
    → nat_eq (b (e * 32)) 0xe5 ≡ false
    → find_name (suc n) e short b
      ≡ (if name_matches 11 0 (e * 32) short b then some (e * 32) else find_name n (e + 1) short b)
unfolding find_name
find_name-suc n e short b used kept = rw (used, find_name) (rw kept refl)

find_name-cong :
    (n e : ℕ) (short b : Bytes)
    → is_free_entry (b (e * 32)) ≡ false
    → find_name (suc n) e short b ≡ none
    → (name_matches 11 0 (e * 32) short b ≡ false) × (find_name n (e + 1) short b ≡ none)
find_name-cong n e short b taken h =
    let (used, kept) = not_free_or (b (e * 32)) taken in
    let opened = sym (find_name-suc n e short b used kept) ∙ h in
    elim (Bool-cases (name_matches 11 0 (e * 32) short b)) [
      | inl same ↦ absurd (some-none {x = e * 32} (sym (rw same refl) ∙ opened))
      | inr other ↦ (other, (rw other refl) ∙ opened)
    ]

-- The sector had no entry of that name, and has it in its first free slot now.
pub find_name-find_slot :
    (n e start : ℕ) (short b b' : Bytes)
    → IsUsable short
    → find_slot n e b ≡ some start
    → find_name n e short b ≡ none
    → ((j : ℕ) → j < start → b' j ≡ b j)
    → ((i : ℕ) → i < 11 → b' (start + i) ≡ short i)
    → find_name n e short b' ≡ some start
unfolding find_slot
find_name-find_slot zero e start short b b' usable slot absent before name =
    absurd (some-none (sym slot))
find_name-find_slot (suc n) e start short b b' usable slot absent before name =
    elim (Bool-cases (is_free_entry (b (e * 32)))) [
      | inl free ↦
          let place : e * 32 ≡ start = some-injective (sym (find_slot-free n e b free) ∙ slot) in
          let at : e * 32 ≡ start + 0 = omega (arith, place) in
          let first : b' (e * 32) ≡ short 0 = ap b' at ∙ name 0 (omega arith) in
          let used : nat_eq (b' (e * 32)) 0 ≡ false = ground (arith, first, usable.0) in
          let kept : nat_eq (b' (e * 32)) 0xe5 ≡ false = ground (arith, first, usable.1) in
          let matches : name_matches 11 0 (e * 32) short b' ≡ true =
            name_matches-true 11 0 (e * 32) short b' (λ k h.
              let p : start + k ≡ e * 32 + (0 + k) = omega (arith, place) in
              let q : k ≡ 0 + k = omega arith in ap b' (sym p) ∙ (name k h ∙ ap short q)) in
          find_name-suc n e short b' used kept ∙ rw matches (ap some place)
      | inr taken ↦
          let slot' = sym (find_slot-taken n e b taken) ∙ slot in
          let far = find_slot_place n (e + 1) start b slot' in
          let (other, absent') = find_name-cong n e short b taken absent in
          let same = before (e * 32) (omega (arith, far)) in
          let (used, kept) = not_free_or (b' (e * 32)) (ap is_free_entry same ∙ taken) in
          let other' =
            name_matches-cong 11 0 (e * 32) short b' b
              (λ k h. before (e * 32 + k) (omega (arith, far, h)))
            ∙ other in
          find_name-suc n e short b' used kept
          ∙ rw other'
              (find_name-find_slot n (e + 1) start short b b' usable slot' absent' before name)
    ]
