-- ===== src/Process/Asids.antt =====
-- Address space identifiers: asid_alloc and asid_free of kern/env.c.
use os_challenge_sudo_shell.Base.{
  ℕ, zero, suc, ◌+◌, ◌≤◌, ◌<◌, ◌≡◌, refl, true, false, Option, none, some, ◌==◌, if◌then◌else◌,
  Result, ok, err, e_no_free_env, arith, Returns, Bool-cases, inl, inr, ==_iff,
}
use os_challenge_sudo_shell.Base.Bitmap.{Bitmap, test, test-mark}
use os_challenge_sudo_shell.Kernel.{Kernel}
use os_challenge_sudo_shell.Process.{asid_alloc, asid_scan, take_asid, nasid}

-- The scan finds the least unused identifier of its range, or there is none.
abbrev Scanned : ℕ → ℕ → Bitmap → Option ℕ → Type 0
Scanned n lo b (some i) =
    (lo ≤ i) × (i < lo + n) × (test b i ≡ false) × ((j : ℕ) → lo ≤ j → j < i → test b j ≡ true)
Scanned n lo b none = (j : ℕ) → lo ≤ j → j < lo + n → test b j ≡ true

scan_on :
    (n lo : ℕ) (b : Bitmap) (o : Option ℕ)
    → test b lo ≡ true
    → Scanned n (lo + 1) b o
    → Scanned (suc n) lo b o
scan_on n lo b (some i) e (g, l, f, m) = (
  omega arith,
  omega arith,
  f,
  λ j h k. elim (Bool-cases (lo == j)) [
    | inl y ↦ let q : lo ≡ j = (==_iff lo j).0 y in rw (← q) e
    | inr x ↦ m j (ground arith) k
  ],
)
scan_on n lo b none e m = λ j h k. elim (Bool-cases (lo == j)) [
  | inl y ↦ let q : lo ≡ j = (==_iff lo j).0 y in rw (← q) e
  | inr x ↦ m j (ground arith) (omega arith)
]

asid_scan-Scanned : (n lo : ℕ) (b : Bitmap) → Scanned n lo b (asid_scan n lo b)
unfolding asid_scan
asid_scan-Scanned zero lo b = λ j h k. absurd (omega arith)
asid_scan-Scanned (suc n) lo b = elim (Bool-cases (test b lo)) [
  | inl y ↦ rw y (scan_on n lo b (asid_scan n (lo + 1) b) y (asid_scan-Scanned n (lo + 1) b))
  | inr x ↦ rw x (omega arith, omega arith, x, λ j h k. absurd (omega arith))
]

-- The outcome of asid_alloc.
abbrev pub Taken : Kernel → Result ℕ → Kernel → Type 0
Taken k (ok i) t =
    (i < nasid)
    × (test k.asid_bitmap i ≡ false)
    × ((j : ℕ) → j < i → test k.asid_bitmap j ≡ true)
    × ((j : ℕ) → test t.asid_bitmap j ≡ (if i == j then true else test k.asid_bitmap j))
    × (t ≡ record k { asid_bitmap = t.asid_bitmap })
Taken k (err e) t =
    (e ≡ e_no_free_env) × (t ≡ k) × ((j : ℕ) → j < nasid → test k.asid_bitmap j ≡ true)

take_asid-Taken :
    (k : Kernel) (o : Option ℕ)
    → Scanned nasid 0 k.asid_bitmap o
    → Returns (take_asid o k) (Taken k)
unfolding take_asid
take_asid-Taken k none m = (refl, refl, λ j h. m j (omega arith) h)
take_asid-Taken k (some i) (g, l, f, m) =
    (l, f, λ j h. m j (omega arith) h, test-mark k.asid_bitmap i, refl)

-- `asid_alloc` comes to an end. It takes the least identifier below 256 whose bit is clear, sets
-- that bit and no other, and changes nothing else; it fails with E_NO_FREE_ENV, with nothing
-- changed, only if all 256 bits are set.
pub asid_alloc-Taken : (k : Kernel) → Returns (asid_alloc k) (Taken k)
unfolding asid_alloc
asid_alloc-Taken k =
    take_asid-Taken k (asid_scan nasid 0 k.asid_bitmap) (asid_scan-Scanned nasid 0 k.asid_bitmap)
