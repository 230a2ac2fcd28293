-- ===== src/Kernel/Fat32/Names.antt =====
-- The entries of other names in a sector of the root directory that gets one more entry.
use arona_os.Prelude.{
  ℕ, zero, suc, ◌+◌, ◌*◌, ◌<◌, ◌≤◌, ◌≡◌, ◌≢◌, refl, sym, ap, ◌∙◌, subst, ◌⊎◌, inl, inr, true, false,
  none, some, nat_eq, if◌then◌else◌, arith, Bool-cases,
}
use arona_os.Kernel.Fat32.{Bytes}
use arona_os.Kernel.Fat32.Directory.{is_free_entry, find_slot, name_matches, find_name}
use arona_os.Kernel.Fat32.Slots.{IsUsable}
use arona_os.Kernel.Fat32.Found.{
  not_free_or, some-none, some-injective, find_slot-free, find_slot-taken, find_slot_place,
  name_matches-cong, find_name-suc,
}

-- Two short names differ in one of their eleven bytes.
abbrev pub Differ : Bytes → Bytes → Type 0
Differ short other = (k : ℕ) × (k < 11) × (short k ≢ other k)

-- Behind an entry that ends the directory, the sector has no entry in use.
abbrev pub IsEnded : Bytes → Type 0
IsEnded b = (e : ℕ) → e < 15 → b (e * 32) ≡ 0 → b ((e + 1) * 32) ≡ 0

-- The sector `b'` has an entry of that name at `start`, and is `b` otherwise.
pub record Entered (start : ℕ) (short b b' : Bytes) : Type 0 where
  pub before : (j : ℕ) → j < start → b' j ≡ b j
  pub name : (i : ℕ) → i < 11 → b' (start + i) ≡ short i
  pub behind : (j : ℕ) → start + 32 ≤ j → b' j ≡ b j

name_matches-false :
    (n i start k : ℕ) (short b : Bytes)
    → k < n
    → b (start + (i + k)) ≢ short (i + k)
    → name_matches n i start short b ≡ false
unfolding name_matches
name_matches-false zero i start k short b h other = elim h [ ]
name_matches-false (suc n) i start zero short b h other =
    let e : i + 0 ≡ i = omega arith in
    let here : b (start + i) ≢ short i = subst (λ k. b (start + k) ≢ short k) e other in
    let fact : nat_eq (b (start + i)) (short i) ≡ false = ground (arith, here) in
    rw (fact, name_matches) refl
name_matches-false (suc n) i start (suc k) short b h other =
    let p : i + suc k ≡ i + 1 + k = omega arith in
    let rest =
      name_matches-false n (i + 1) start k short b (omega (arith, h))
        (subst (λ x. b (start + x) ≢ short x) p other) in
    elim (Bool-cases (nat_eq (b (start + i)) (short i))) [
      | inl same ↦ rw (same, name_matches) rest
      | inr differs ↦ rw (differs, name_matches) refl
    ]

find_name_last : (n e : ℕ) (short b : Bytes) → b (e * 32) ≡ 0 → find_name n e short b ≡ none
unfolding find_name
find_name_last zero e short b h = refl
find_name_last (suc n) e short b h = rw (h, find_name) refl

none_left : (e : ℕ) (short b : Bytes) → find_name 0 e short b ≡ none
unfolding find_name
none_left e short b = refl

find_name_deleted :
    (n e : ℕ) (short b : Bytes)
    → nat_eq (b (e * 32)) 0 ≡ false
    → nat_eq (b (e * 32)) 0xe5 ≡ true
    → find_name (suc n) e short b ≡ find_name n (e + 1) short b
unfolding find_name
find_name_deleted n e short b used deleted = rw (used, find_name) (rw deleted refl)

-- The reading of the entries from `e` on needs only their bytes.
find_name-same :
    (n e : ℕ) (short b b' : Bytes)
    → ((j : ℕ) → e * 32 ≤ j → b' j ≡ b j)
    → find_name n e short b' ≡ find_name n e short b
unfolding find_name
find_name-same zero e short b b' same = refl
find_name-same (suc n) e short b b' same =
    let here = same (e * 32) (omega arith) in
    let matches =
      name_matches-cong 11 0 (e * 32) short b' b (λ k h. same (e * 32 + k) (omega arith)) in
    let later = find_name-same n (e + 1) short b b' (λ j h. same j (omega (arith, h))) in
    rw (here, matches, later) refl

-- Where a name is found, an entry in use starts.
find_name_place :
    (n e p : ℕ) (short b : Bytes)
    → find_name n e short b ≡ some p
    → (f : ℕ) × (p ≡ f * 32) × (is_free_entry (b p) ≡ false)
unfolding find_name
find_name_place zero e p short b h = absurd (some-none (sym h))
find_name_place (suc n) e p short b h = elim (Bool-cases (nat_eq (b (e * 32)) 0)) [
  | inl last ↦ absurd (some-none (sym h ∙ rw last refl))
  | inr used ↦ elim (Bool-cases (nat_eq (b (e * 32)) 0xe5)) [
    | inl deleted ↦
        find_name_place n (e + 1) p short b (sym (find_name_deleted n e short b used deleted) ∙ h)
    | inr kept ↦
        let opened = sym (find_name-suc n e short b used kept) ∙ h in
        elim (Bool-cases (name_matches 11 0 (e * 32) short b)) [
          | inl same ↦
              let at : e * 32 ≡ p = some-injective (sym (rw same refl) ∙ opened) in
              (e, sym at, subst (λ x. is_free_entry (b x) ≡ false) at (rw (used, kept) refl))
          | inr other ↦ find_name_place n (e + 1) p short b (sym (rw other refl) ∙ opened)
        ]
  ]
]

pub find_slot_free :
    (n e start : ℕ) (b : Bytes)
    → find_slot n e b ≡ some start
    → (g : ℕ) × (start ≡ g * 32) × (g < e + n) × (is_free_entry (b start) ≡ true)
unfolding find_slot
find_slot_free zero e start b h = absurd (some-none (sym h))
find_slot_free (suc n) e start b h = elim (Bool-cases (is_free_entry (b (e * 32)))) [
  | inl free ↦
      let at : e * 32 ≡ start = some-injective (sym (find_slot-free n e b free) ∙ h) in
      (e, sym at, omega arith, subst (λ x. is_free_entry (b x) ≡ true) at free)
  | inr taken ↦
      let (g, at, small, free) =
        find_slot_free n (e + 1) start b (sym (find_slot-taken n e b taken) ∙ h) in
      (g, at, omega (arith, small), free)
]

-- Such an entry does not overlap the first free one.
pub find_name-find_slot_apart :
    (p start : ℕ) (short b : Bytes)
    → find_name 16 0 short b ≡ some p
    → find_slot 16 0 b ≡ some start
    → (p + 32 ≤ start) ⊎ (start + 32 ≤ p)
find_name-find_slot_apart p start short b found slot =
    let (f, at, used) = find_name_place 16 0 p short b found in
    let (g, there, _, free) = find_slot_free 16 0 start b slot in
    let differ : p ≢ start =
      λ q. absurd (cc (sym (subst (λ x. is_free_entry (b x) ≡ false) q used) ∙ free)) in
    ground (arith, at, there, differ)

module _ (start : ℕ) (short other b b' : Bytes) (usable : IsUsable short)
    (differ : Differ short other) (ended : IsEnded b) (entered : Entered start short b b') where
  mismatch : name_matches 11 0 start other b' ≡ false
  mismatch =
      let k = differ.0 in
      let e : 0 + k ≡ k = omega arith in
      let h : b' (start + k) ≢ other k = λ q. differ.2 (sym (entered.name k differ.1) ∙ q) in
      name_matches-false 11 0 start k other b' differ.1
        (subst (λ x. b' (start + x) ≢ other x) (sym e) h)

  entry_used : (nat_eq (b' start) 0 ≡ false) × (nat_eq (b' start) 0xe5 ≡ false)
  entry_used =
      let e : start + 0 ≡ start = omega arith in
      let first : b' start ≡ short 0 = sym (ap b' e) ∙ entered.name 0 (omega arith) in
      (ground (arith, first, usable.0), ground (arith, first, usable.1))

  -- The new entry is passed over, and what is behind it reads as before.
  find_name_over :
      (n e : ℕ)
      → n + e ≡ 15
      → e * 32 ≡ start
      → is_free_entry (b (e * 32)) ≡ true
      → find_name (suc n) e other b' ≡ find_name (suc n) e other b
  find_name_over n e last at free =
      let (used, kept) = entry_used in
      let over : find_name (suc n) e other b' ≡ find_name n (e + 1) other b' =
        find_name-suc n e other b' (subst (λ x. nat_eq (b' x) 0 ≡ false) (sym at) used)
          (subst (λ x. nat_eq (b' x) 0xe5 ≡ false) (sym at) kept)
        ∙ rw (subst (λ x. name_matches 11 0 x other b' ≡ false) (sym at) mismatch) refl in
      let later : find_name n (e + 1) other b' ≡ find_name n (e + 1) other b =
        find_name-same n (e + 1) other b b' (λ j h. entered.behind j (omega (arith, at, h))) in
      elim (Bool-cases (nat_eq (b (e * 32)) 0)) [
        | inl end ↦
            let zero_ : b (e * 32) ≡ 0 = ground (arith, end) in
            over ∙ (later ∙ (beyond n last zero_ ∙ sym (find_name_last (suc n) e other b zero_)))
        | inr used ↦
            over ∙ (later ∙ sym (find_name_deleted n e other b used (ground (arith, used, free))))
      ]
    where
      beyond : (n : ℕ) → n + e ≡ 15 → b (e * 32) ≡ 0 → find_name n (e + 1) other b ≡ none
      beyond zero last end = none_left (e + 1) other b
      beyond (suc n) last end =
          find_name_last (suc n) (e + 1) other b (ended e (omega (arith, last)) end)

  -- Every other name is found where it was.
  pub find_name-Entered :
      (n e : ℕ)
      → n + e ≡ 16
      → find_slot n e b ≡ some start
      → find_name n e other b' ≡ find_name n e other b
  unfolding find_slot
  find_name-Entered zero e last slot = absurd (some-none (sym slot))
  find_name-Entered (suc n) e last slot = elim (Bool-cases (is_free_entry (b (e * 32)))) [
    | inl free ↦
        find_name_over n e (omega (arith, last))
          (some-injective (sym (find_slot-free n e b free) ∙ slot)) free
    | inr taken ↦
        let slot' = sym (find_slot-taken n e b taken) ∙ slot in
        let far = find_slot_place n (e + 1) start b slot' in
        let same = entered.before (e * 32) (omega (arith, far)) in
        let (used, kept) = not_free_or (b (e * 32)) taken in
        let (used', kept') = not_free_or (b' (e * 32)) (ap is_free_entry same ∙ taken) in
        let matches =
          name_matches-cong 11 0 (e * 32) other b' b
            (λ k h. entered.before (e * 32 + k) (omega (arith, far, h))) in
        let later = find_name-Entered n (e + 1) (omega (arith, last)) slot' in
        find_name-suc n e other b' used' kept'
        ∙ (ap (λ m. if m then some (e * 32) else find_name n (e + 1) other b') matches
            ∙ (ap (λ l. if name_matches 11 0 (e * 32) other b then some (e * 32) else l) later
                ∙ sym (find_name-suc n e other b used kept)))
  ]
