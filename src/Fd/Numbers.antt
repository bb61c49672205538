-- ===== src/Fd/Numbers.antt =====
-- user/lib/fd.c: which descriptor fd_alloc gives, and the numbers and addresses of descriptors.
use os_challenge_sudo_shell.Base.{
  ℕ, zero, suc, ◌+◌, ◌*◌, ◌^◌, ◌≤◌, ◌<◌, ◌≡◌, refl, ap, ◌∙◌, inl, inr, true, false, ltb, Result, ok,
  err, e_max_open, arith, subst, Bool-cases,
}
use os_challenge_sudo_shell.Fd.{
  User, maxfd, filebase, index2fd, index2data, unused, alloc_from, fd_alloc, fd2num, fd2data,
  num2fd,
}

-- The outcome of the search over `count` descriptors from `i` on
abbrev pub Unused : ℕ → ℕ → User → Result ℕ → Type 0
Unused count i u (ok fd) =
    (k : ℕ) × (i ≤ k)
    × (k < i + count)
    × (fd ≡ index2fd k)
    × (unused k u ≡ true)
    × ((j : ℕ) → i ≤ j → j < k → unused j u ≡ false)
Unused count i u (err e) = (e ≡ e_max_open) × ((j : ℕ) → i ≤ j → j < i + count → unused j u ≡ false)

in_use :
    (u : User) (i n : ℕ)
    → unused i u ≡ false
    → ((j : ℕ) → i + 1 ≤ j → j < n → unused j u ≡ false)
    → (j : ℕ) → i ≤ j
    → j < n
    → unused j u ≡ false
in_use u i n x k j g h = elim (Bool-cases (ltb i j)) [
  | inl y ↦ k j (ground (arith, y)) h
  | inr z ↦ let e : i ≡ j = ground (arith, z, g) in subst (λ c. unused c u ≡ false) e x
]

Unused-next :
    (u : User) (count i : ℕ) (r : Result ℕ)
    → unused i u ≡ false
    → Unused count (i + 1) u r
    → Unused (suc count) i u r
Unused-next u count i (ok fd) x (k, g, h, e, y, before) =
    (k, omega (arith, g), omega (arith, h), e, y, in_use u i k x before)
Unused-next u count i (err e) x (y, k) =
    (y, λ j g h. in_use u i (i + 1 + count) x k j g (omega (arith, h)))

alloc_from-Unused : (u : User) (count i : ℕ) → Unused count i u (alloc_from count i u)
unfolding alloc_from
alloc_from-Unused u zero i = (refl, λ j g h. absurd (omega (arith, g, h)))
alloc_from-Unused u (suc count) i =
    let rest = alloc_from-Unused u count (i + 1) in
    elim (Bool-cases (unused i u)) [
      | inl y ↦ rw y (i, omega arith, omega arith, refl, y, λ j g h. absurd (omega (arith, g, h)))
      | inr n ↦ rw n (Unused-next u count i (alloc_from count (i + 1) u) n rest)
    ]

-- `fd_alloc` gives the first of the descriptors 0 to 30 that is not mapped, and fails with
-- E_MAX_OPEN only if all of these are mapped; it never gives descriptor 31.
pub fd_alloc-Unused : (u : User) → Unused 31 0 u (fd_alloc u)
unfolding fd_alloc
fd_alloc-Unused u = alloc_from-Unused u 31 0

-- The data of descriptor `i` is the 4 MB from here on.
abbrev pub InData : ℕ → ℕ → Type 0
InData i va = (fd2data (num2fd i) ≤ va) × (va < fd2data (num2fd i) + 2 ^ 22)

pub fd2num-num2fd : (i : ℕ) → i < maxfd → fd2num (num2fd i) ≡ i
unfolding fd2num num2fd
fd2num-num2fd i l = omega arith

fd2data-num2fd : (i : ℕ) → i < maxfd → fd2data (num2fd i) ≡ filebase + i * 2 ^ 22
unfolding fd2data
fd2data-num2fd i l = ap index2data (fd2num-num2fd i l) ∙ omega arith

-- For descriptors below 32: `fd2num` takes the address of a descriptor back to its number; the page
-- at this address lies below FILEBASE and the data below 2^31; and an address in the data of two
-- descriptors means that they are the same.
pub num2fd-InData :
    (i j va : ℕ)
    → i < maxfd
    → j < maxfd
    → (fd2num (num2fd i) ≡ i)
      × (num2fd i + 4096 ≤ filebase)
      × (fd2data (num2fd i) + 2 ^ 22 ≤ 2 ^ 31)
      × (InData i va → InData j va → i ≡ j)
unfolding num2fd
num2fd-InData i j va l m = (
  fd2num-num2fd i l,
  omega arith,
  omega (arith, fd2data-num2fd i l),
  λ a b. omega (arith, a.0, a.1, b.0, b.1, fd2data-num2fd i l, fd2data-num2fd j m),
)

pub fd2data_past : (i : ℕ) → i < maxfd → filebase ≤ fd2data (index2fd i)
unfolding num2fd
fd2data_past i l =
    let e : num2fd i ≡ index2fd i = omega arith in
    subst (λ fd. filebase ≤ fd2data fd) e (omega (arith, fd2data-num2fd i l))
