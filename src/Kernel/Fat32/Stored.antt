-- ===== src/Kernel/Fat32/Stored.antt =====
-- What the sectors of a chain hold after the data has been written.
use native.Mathlib.Nat.{mod-eq_of_lt}
use arona_os.Prelude.{
  nat_eq, ℕ, zero, suc, ◌+◌, ◌*◌, ◌^◌, ◌<◌, ◌≤◌, ◌≡◌, refl, sym, ap, ◌∙◌, subst, ◌⊎◌, inl, inr, u32,
  List, [], ◌∷◌, ok, length, ltb, take, drop, arith, All, Bool-cases,
}
use arona_os.Prelude.Actions.{◌>>=◌, bind-eq-ok}
use arona_os.Kernel.Fat32.{
  Words, BlockDevice, IsLawful, cluster_to_sector, words_to_bytes, bytes_to_words,
}
use arona_os.Kernel.Fat32.Geometry.{total_clusters}
use arona_os.Kernel.Fat32.Entries.{words_to_bytes-bytes_to_words}
use arona_os.Kernel.Fat32.Data.{byte_at, sector_bytes, write_sectors}

-- The number of a sector of a cluster of the disk.
pub cluster_to_sector-eq :
    (c : ℕ) → 2 ≤ c → c < 2 + total_clusters → cluster_to_sector c ≡ 2064 + c * 8
unfolding cluster_to_sector
cluster_to_sector-eq c h k = ground arith

pub byte_at-drop : (n k : ℕ) (xs : List ℕ) → byte_at (drop n xs) k ≡ byte_at xs (n + k)
byte_at-drop zero k xs = let e : k ≡ 0 + k = omega arith in ap (byte_at xs) e
byte_at-drop (suc n) k [] = refl
byte_at-drop (suc n) k (x ∷ xs) =
    let e : suc (n + k) ≡ suc n + k = omega arith in byte_at-drop n k xs ∙ ap (byte_at (x ∷ xs)) e

pub byte_at-take : (n k : ℕ) (xs : List ℕ) → k < n → byte_at (take n xs) k ≡ byte_at xs k
byte_at-take zero k xs h = absurd (omega (arith, h))
byte_at-take (suc n) k [] h = refl
byte_at-take (suc n) zero (x ∷ xs) h = refl
byte_at-take (suc n) (suc k) (x ∷ xs) h = byte_at-take n k xs (omega (arith, h))

byte_at_behind : (k : ℕ) (xs : List ℕ) → length xs ≤ k → byte_at xs k ≡ 0
byte_at_behind k [] h = refl
byte_at_behind zero (x ∷ xs) h = absurd (omega (arith, h))
byte_at_behind (suc k) (x ∷ xs) h = byte_at_behind k xs (omega (arith, h))

byte_at_small : (k : ℕ) (xs : List ℕ) → All (λ b. b < 256) xs → byte_at xs k < 256
byte_at_small k [] h = omega arith
byte_at_small zero (x ∷ xs) h = h.0
byte_at_small (suc k) (x ∷ xs) h = byte_at_small k xs h.1

pub take_small : (n : ℕ) (xs : List ℕ) → All (λ b. b < 256) xs → All (λ b. b < 256) (take n xs)
take_small zero xs h = tt
take_small (suc n) [] h = tt
take_small (suc n) (x ∷ xs) h = (h.0, take_small n xs h.1)

pub drop_small : (n : ℕ) (xs : List ℕ) → All (λ b. b < 256) xs → All (λ b. b < 256) (drop n xs)
drop_small zero xs h = h
drop_small (suc n) [] h = tt
drop_small (suc n) (x ∷ xs) h = drop_small n xs h.1

sector_bytes-byte_at :
    (chunk : List ℕ) (i j : ℕ) → sector_bytes chunk i j ≡ byte_at chunk (i * 512 + j)
unfolding sector_bytes
sector_bytes-byte_at chunk i j = elim (Bool-cases (ltb (i * 512 + j) (length chunk))) [
  | inl inside ↦ rw inside refl
  | inr behind ↦ rw behind (sym (byte_at_behind (i * 512 + j) chunk (ground (arith, behind))))
]

module _ {D : Type 0} (device : BlockDevice D) where
  -- The sector reads as the 512 bytes of the list from `o` on.
  pub record Holds (d : D) (s o : ℕ) (xs : List ℕ) : Type 0 where
    pub words : Words
    pub reads : device.read_sector s d ≡ ok words
    pub bytes : (j : ℕ) → j < 512 → words_to_bytes words j ≡ byte_at xs (o + j)

module _ {D : Type 0} (device : BlockDevice D) (lawful : IsLawful device) where
  -- What the writing of the sectors `i` to `i + n` of a cluster leaves on the disk.
  pub record Wrote (n start i : ℕ) (chunk : List ℕ) (d d' : D) : Type 0 where
    pub held : (k : ℕ) → i ≤ k → k < i + n → Holds device d' (start + k) (k * 512) chunk
    pub kept :
        (s : ℕ)
        → (s < start + i) ⊎ (start + i + n ≤ s)
        → device.read_sector s d' ≡ device.read_sector s d

  pub write_sectors-Wrote :
      (n start i : ℕ) (chunk : List ℕ) (d d' : D)
      → start + i + n < 2 ^ 32
      → All (λ b. b < 256) chunk
      → write_sectors device n start i chunk d ≡ (d', ok tt)
      → Wrote n start i chunk d d'
  unfolding write_sectors ◌>>=◌
  write_sectors-Wrote zero start i chunk d d' fits small h = record {
    held = λ k a b. absurd (omega (arith, a, b));
    kept = λ s _. ap (λ x. device.read_sector s x) (sym (ap (λ r. r.0) h));
  }
  write_sectors-Wrote (suc n) start i chunk d d' fits small h =
      let (d₁, u, written, rest) =
        bind-eq-ok (device.write_sector (u32 (start + i)) (bytes_to_words (sector_bytes chunk i)))
          (λ _. write_sectors device n start (i + 1) chunk) d d' tt h in
      let r = write_sectors-Wrote n start (i + 1) chunk d₁ d' (omega (arith, fits)) small rest in
      let same : u32 (start + i) ≡ start + i = mod-eq_of_lt (omega (arith, fits)) in
      let w = bytes_to_words (sector_bytes chunk i) in
      let written' : device.write_sector (start + i) w d ≡ (d₁, ok tt) =
        subst (λ s. device.write_sector s w d ≡ (d₁, ok tt)) same written in
      let here : Holds device d' (start + i) (i * 512) chunk = record {
        words = w;
        reads =
            r.kept (start + i) (inl (omega arith)) ∙ lawful.read-write (start + i) w d d₁ written';
        bytes = λ j h.
            words_to_bytes-bytes_to_words (sector_bytes chunk i) j (λ k.
              subst (λ b. b < 256) (sym (sector_bytes-byte_at chunk i k))
                (byte_at_small (i * 512 + k) chunk small))
            ∙ sector_bytes-byte_at chunk i j;
      } in
      record {
        held = λ k a b. elim (Bool-cases (nat_eq k i)) [
          | inl now ↦
              let e : i ≡ k = ground (arith, now) in
              subst (λ k. Holds device d' (start + k) (k * 512) chunk) e here
          | inr later ↦ r.held k (ground (arith, later, a)) (omega (arith, b))
        ];
        kept = λ s away.
            r.kept s (ground (arith, away))
            ∙ lawful.read-write_other (start + i) s w d d₁ written' (λ e. ground (arith, e, away));
      }
