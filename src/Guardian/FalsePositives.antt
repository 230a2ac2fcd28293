-- ===== src/Guardian/FalsePositives.antt =====
-- `record_false_positive` called again and again for one rule.
use arona_os.Prelude.{
  ℕ, zero, suc, ◌+◌, ◌^◌, ◌<◌, ◌≡◌, refl, ◌&&◌, true, false, some, ok, arith, ltb, leb,
}
use arona_os.Guardian.{Uuid, GuardianRule}
use arona_os.Guardian.Engine.{GuardianEngine, find, record_false_positive, after_false_positive}
use arona_os.Guardian.Rules.{find-modify_self}

-- `n` false positives of the rule, one after another.
unfoldable pub repeat : ℕ → Uuid → GuardianEngine → GuardianEngine
repeat zero id e = e
repeat (suc n) id e = repeat n id (record_false_positive id e).0

after_false_positive-id : (r : GuardianRule) → (after_false_positive r).id ≡ r.id
after_false_positive-id r = ground arith

find-record_false_positive :
    (id : Uuid) (e : GuardianEngine) {r : GuardianRule}
    → find id e.rules ≡ some r
    → find id (record_false_positive id e).0.rules ≡ some (after_false_positive r)
unfolding record_false_positive
find-record_false_positive id e {r} found =
    rw (found, record_false_positive)
      (find-modify_self id after_false_positive after_false_positive-id e.rules found)

-- Where the rule with the id is unprotected and has fewer than five false positives, `n` more (that
-- do not overflow the `u32`) leave a rule that has counted all of them, and that is active exactly
-- if it was active and the count is still below five.
pub find-repeat :
    (n : ℕ) (id : Uuid) (e : GuardianEngine) (r : GuardianRule)
    → find id e.rules ≡ some r
    → r.protected ≡ false
    → r.false_positive_count + n < 2 ^ 32
    → (r.active ≡ true → r.false_positive_count < 5)
    → (r' : GuardianRule) × (find id (repeat n id e).rules ≡ some r')
      × (r'.protected ≡ false)
      × (r'.false_positive_count ≡ r.false_positive_count + n)
      × (r'.active ≡ (r.active && ltb (r.false_positive_count + n) 5))
unfolding repeat
find-repeat zero id e r found free fits low = (r, found, free, omega arith, ground arith)
find-repeat (suc n) id e r found free fits low =
    let (s, found', free', counted, active) =
      find-repeat n id (record_false_positive id e).0 (after_false_positive r)
        (find-record_false_positive id e found) (ground arith) (ground arith) (ground arith) in
    (s, found', free', ground arith, ground arith)

-- Where the rule with the id is unprotected, and has fewer than five false positives if it is active,
-- the answer to the recording after `n` others (that do not overflow the `u32`) is `Ok(true)` exactly
-- if it brings the count to five or more: also where the rule is off already.
pub record_false_positive-repeat :
    (n : ℕ) (id : Uuid) (e : GuardianEngine) (r : GuardianRule)
    → find id e.rules ≡ some r
    → r.protected ≡ false
    → r.false_positive_count + n + 1 < 2 ^ 32
    → (r.active ≡ true → r.false_positive_count < 5)
    → (record_false_positive id (repeat n id e)).1 ≡ ok (leb 5 (r.false_positive_count + n + 1))
unfolding record_false_positive
record_false_positive-repeat n id e r found free fits low =
    let (s, found', free', counted, active) = find-repeat n id e r found free (omega arith) low in
    ground (arith, found', free', counted)

-- A protected rule is as active after any number of false positives as before, and every recording
-- answers `Ok(false)`; no bound on the number is needed, though the `u32` count wraps.
pub record_false_positive-repeat_protected :
    (n : ℕ) (id : Uuid) (e : GuardianEngine) (r : GuardianRule)
    → find id e.rules ≡ some r
    → r.protected ≡ true
    → ((r' : GuardianRule) × (find id (repeat n id e).rules ≡ some r')
        × (r'.protected ≡ true)
        × (r'.active ≡ r.active))
      × ((record_false_positive id (repeat n id e)).1 ≡ ok false)
unfolding repeat
record_false_positive-repeat_protected zero id e r found p =
    ((r, found, p, refl), unfold record_false_positive in ground arith)
record_false_positive-repeat_protected (suc n) id e r found p =
    let ((s, found', p', active), answer) =
      record_false_positive-repeat_protected n id (record_false_positive id e).0
        (after_false_positive r) (find-record_false_positive id e found) (ground arith) in
    ((s, found', p', ground arith), answer)
