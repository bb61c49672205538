-- ===== src/Serve/Opens.antt =====
-- open_alloc of fs/serv.c: which entry of the table of open files is given out.
use os_challenge_sudo_shell.Base.{
  ℕ, zero, suc, ◌+◌, ◌≤◌, ◌<◌, ◌≡◌, refl, ◌⊎◌, inl, inr, update, Result, ok, err, e_no_mem,
  e_max_open, arith, subst, Returns, Returns-weaken, attempt, ltb, Bool-cases,
}
use os_challenge_sudo_shell.Serve.{
  Server, maxopen, new_page, blank, take_open, by_refs, open_from, open_alloc,
}

-- The number of mappings of entry `j`'s page
abbrev pub refs_of : (ℕ → ℕ) → Server → ℕ → ℕ
refs_of pageref v j = pageref (v.opentab j).o_ff

-- Nothing of the table or the replies has changed.
abbrev pub SameTable : Server → Server → Type 0
SameTable v t = (t.opentab ≡ v.opentab) × (t.sent ≡ v.sent)

-- The outcome of the search from entry `i` on: the first entry whose page no client has, with the page
-- cleared; an error leaves the pages as they are.
abbrev pub Given : (ℕ → ℕ) → ℕ → ℕ → Server → Result ℕ → Server → Type 0
Given pageref count i v (ok k) t =
    (i ≤ k)
    × (k < i + count)
    × (refs_of pageref v k ≤ 1)
    × ((j : ℕ) → i ≤ j → j < k → 1 < refs_of pageref v j)
    × (t.filefd ≡ update v.filefd (v.opentab k).o_ff blank)
    × SameTable v t
Given pageref count i v (err e) t =
    (((e ≡ e_max_open) × ((j : ℕ) → i ≤ j → j < i + count → 1 < refs_of pageref v j))
      ⊎ ((e ≡ e_no_mem)
          × (v.fs.room ≡ 0)
          × ((k : ℕ) × (i ≤ k)
              × (k < i + count)
              × (refs_of pageref v k ≡ 0)
              × ((j : ℕ) → i ≤ j → j < k → 1 < refs_of pageref v j))))
    × (t.filefd ≡ v.filefd)
    × SameTable v t

module _ (pageref : ℕ → ℕ) (v : Server) where
  taken :
      (count i : ℕ) (w : Server)
      → refs_of pageref v i ≤ 1
      → SameTable v w
      → w.filefd ≡ v.filefd
      → Returns (take_open i w) (Given pageref (suc count) i v)
  unfolding take_open
  taken count i w l (e, s) f = (
    omega arith,
    omega arith,
    l,
    λ j g h. absurd (omega (arith, g, h)),
    λ z. update (f z) (e z i).o_ff blank,
    (e, s),
  )

  allocated :
      (count i m : ℕ)
      → v.fs.room ≡ m
      → refs_of pageref v i ≡ 0
      → Returns (attempt (λ w. new_page m w) (λ x. take_open i) v) (Given pageref (suc count) i v)
  unfolding new_page
  allocated count i zero r z = (
    inr (refl, r, (i, omega arith, omega arith, z, λ j g h. absurd (omega (arith, g, h)))),
    refl,
    (refl, refl),
  )
  allocated count i (suc m) r z =
      taken count i (record v { fs = record (v.fs) { room = m } }) (omega (arith, z)) (refl, refl)
        refl

  past :
      (i : ℕ) (n : ℕ)
      → 1 < refs_of pageref v i
      → ((j : ℕ) → i + 1 ≤ j → j < n → 1 < refs_of pageref v j)
      → (j : ℕ) → i ≤ j
      → j < n
      → 1 < refs_of pageref v j
  past i n l k j g h = elim (Bool-cases (ltb i j)) [
    | inl y ↦ k j (ground (arith, y)) h
    | inr x ↦ let e : i ≡ j = ground (arith, x, g) in subst (λ c. 1 < refs_of pageref v c) e l
  ]

  from_next :
      (count i : ℕ) (r : Result ℕ) (t : Server)
      → 1 < refs_of pageref v i
      → Given pageref count (i + 1) v r t
      → Given pageref (suc count) i v r t
  from_next count i (ok k) t l (g, h, x, y, z, w) =
      (omega (arith, g), omega (arith, h), x, past i k l y, z, w)
  from_next count i (err e) t l (inl (x, y), f, z) =
      (inl (x, λ j g h. past i (i + 1 + count) l y j g (omega (arith, h))), f, z)
  from_next count i (err e) t l (inr (x, r, (k, g, h, y, w)), f, z) =
      (inr (x, r, (k, omega (arith, g), omega (arith, h), y, past i k l w)), f, z)

  chosen :
      (count i m : ℕ)
      → refs_of pageref v i ≡ m
      → Returns (open_from pageref count (i + 1) v) (Given pageref count (i + 1) v)
      → Returns (by_refs (open_from pageref count (i + 1)) i m v) (Given pageref (suc count) i v)
  unfolding by_refs
  chosen count i zero q rest = allocated count i v.fs.room refl q
  chosen count i (suc zero) q rest = taken count i v (omega (arith, q)) (refl, refl) refl
  chosen count i (suc (suc m)) q rest =
      Returns-weaken _ _ (open_from pageref count (i + 1) v) rest
        λ r t h. from_next count i r t (omega (arith, q)) h

  open_from-Given : (count i : ℕ) → Returns (open_from pageref count i v) (Given pageref count i v)
  unfolding open_from
  open_from-Given zero i = (inl (refl, λ j g h. absurd (omega (arith, g, h))), refl, (refl, refl))
  open_from-Given (suc count) i =
      chosen count i (refs_of pageref v i) refl (open_from-Given count (i + 1))

  -- `open_alloc` comes to an end. It gives the first entry whose page is mapped at most once, with
  -- the page cleared. It fails with E_MAX_OPEN only if the page of each of the 1024 entries is mapped
  -- twice at least, and with E_NO_MEM only if no page is left and the first entry whose page is
  -- mapped at most once has none; the pages are then as before. The table and the replies do not
  -- change.
  pub open_alloc-Given : Returns (open_alloc pageref v) (Given pageref maxopen 0 v)
  unfolding open_alloc
  open_alloc-Given = open_from-Given maxopen 0
