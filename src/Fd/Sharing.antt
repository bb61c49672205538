-- ===== src/Fd/Sharing.antt =====
-- dup of user/lib/fd.c: the two descriptors share their page, so also the offset.
use os_challenge_sudo_shell.Base.{
  ℕ, zero, suc, ◌+◌, ◌/◌, ◌^◌, ◌≤◌, ◌<◌, ◌≡◌, ◌≢◌, refl, sym, ap, ◌∙◌, ◌⊎◌, inl, inr, true, false,
  ◌&&◌, leb, ltb, ◌==◌, update, update_self, update_ne, List, done, attempt, attempt-ok,
  attempt-err, bind-done, Result, ok, err, Error, e_inval, e_no_mem, arith, subst, Bool-cases,
  Returns, Returns-bind, Returns-weaken,
}
use os_challenge_sudo_shell.Fd.Numbers.{fd2data_past}
use os_challenge_sudo_shell.Fd.{
  User, Dev, maxfd, filebase, index2fd, has_page, shared_bits, page_at, mem_unmap, entry_of,
  add_table, table_for, map_page, mem_map, fd_lookup, fd2data, look, copy_pages, copy_data,
  unmap_pages, finish_dup, map_fd, with_dev, close, dup,
}

-- The call succeeded, or the kernel had no memory for a page table.
abbrev pub NoMem : Result (Unit {0}) → Type 0
NoMem r = (r ≡ ok tt) ⊎ (r ≡ err e_no_mem)

-- The outcome of syscall_mem_map of a page that is mapped
abbrev Mapped : ℕ → ℕ → User → Result (Unit {0}) → User → Type 0
Mapped dst pte u (ok x) t = (t.vpt ≡ update u.vpt (dst / 4096) pte) × (t.fds ≡ u.fds)
Mapped dst pte u (err e) t = (e ≡ e_no_mem) × (t.vpt ≡ u.vpt) × (t.fds ≡ u.fds)

add_table-NoMem :
    (va n : ℕ) (u : User)
    → Returns (add_table va n u) (λ r t. NoMem r × (t.vpt ≡ u.vpt) × (t.fds ≡ u.fds))
unfolding add_table
add_table-NoMem va zero u = (inr refl, refl, refl)
add_table-NoMem va (suc n) u = (inl refl, refl, refl)

table_for-NoMem :
    (va : ℕ) (u : User)
    → Returns (table_for va u) (λ r t. NoMem r × (t.vpt ≡ u.vpt) × (t.fds ≡ u.fds))
unfolding table_for
table_for-NoMem va u = elim (Bool-cases (has_page (u.vpd (va / 2 ^ 22)))) [
  | inl y ↦ rw y (inl refl, refl, refl)
  | inr n ↦ rw n (add_table-NoMem va u.room u)
]

err-inj : (e d : Error) → ◌≡◌ {A = Result (Unit {0})} (err e) (err d) → e ≡ d
err-inj e d = ap λ (r : Result (Unit {0})). elim r [ ok x ↦ e | err c ↦ c ]

NoMem-err : (e : Error) → NoMem (err e) → e ≡ e_no_mem
NoMem-err e (inl y) = absurd (ground (arith, y))
NoMem-err e (inr n) = err-inj e e_no_mem n

mem_map-Mapped :
    (src dst perm : ℕ) (u : User)
    → has_page (u.vpt (src / 4096)) ≡ true
    → Returns (mem_map src dst perm u) (Mapped dst (entry_of (page_at src u) perm) u)
unfolding mem_map map_page
mem_map-Mapped src dst perm u h = rw h (
    Returns-bind (λ r t. NoMem r × (t.vpt ≡ u.vpt) × (t.fds ≡ u.fds)) _ (table_for dst) _ u
      (table_for-NoMem dst u)
      (elim [
        | ok x ↦ λ t g. (λ i. update (g.1 i) (dst / 4096) (entry_of (page_at src u) perm), g.2)
        | err e ↦ λ t g. (NoMem-err e g.0, g.1, g.2)
      ]))

-- The descriptors and their pages are as they were.
abbrev Same : User → User → Type 0
Same u t = ((x : ℕ) → x < filebase / 4096 → t.vpt x ≡ u.vpt x) × (t.fds ≡ u.fds)

Same-trans : (u t w : User) → Same u t → Same t w → Same u w
Same-trans u t w (f, g) (h, k) = (λ x l. h x l ∙ f x l, k ∙ g)

data_map-Same :
    (src dst perm : ℕ) (u : User)
    → has_page (u.vpt (src / 4096)) ≡ true
    → filebase ≤ dst
    → Returns (mem_map src dst perm u) (λ r t. NoMem r × Same u t)
data_map-Same src dst perm u h l =
    Returns-weaken _ _ (mem_map src dst perm u) (mem_map-Mapped src dst perm u h) (elim [
      | ok x ↦ λ t g. (
        inl refl,
        (
          λ y k. ap (λ f. f y) g.0 ∙ update_ne u.vpt (dst / 4096) y _ (λ e. omega (arith, e, k, l)),
          g.1,
        ),
      )
      | err e ↦ λ t g. (inr (ap err g.0), (λ y k. ap (λ f. f y) g.1, g.2))
    ])

copy_pages-Same :
    (count i ova nva : ℕ) (u : User)
    → filebase ≤ nva
    → Returns (copy_pages count i ova nva u) (λ r t. NoMem r × Same u t)
unfolding copy_pages
copy_pages-Same zero i ova nva u l = (inl refl, (λ x k. refl, refl))
copy_pages-Same (suc count) i ova nva u l =
    let next : (t : User)
        → Returns (copy_pages count (i + 4096) ova nva t) (λ r w. NoMem r × Same t w) =
      λ t. copy_pages-Same count (i + 4096) ova nva t l in
    elim (Bool-cases (has_page (u.vpt ((ova + i) / 4096)))) [
      | inl y ↦ rw y (
          Returns-bind (λ r t. NoMem r × Same u t) _ (mem_map (ova + i) (nva + i) _) _ u
            (data_map-Same (ova + i) (nva + i) _ u y (omega (arith, l)))
            (elim [
              | ok x ↦ λ t g.
                  Returns-weaken _ _ (copy_pages count (i + 4096) ova nva t) (next t)
                    λ r w k. (k.0, Same-trans u t w g.1 k.1)
              | err e ↦ λ t g. g
            ]))
      | inr n ↦ rw n (next u)
    ]

copy_data-Same :
    (ova nva : ℕ) (u : User)
    → filebase ≤ nva
    → Returns (copy_data ova nva u) (λ r t. NoMem r × Same u t)
unfolding copy_data
copy_data-Same ova nva u l = elim (Bool-cases (u.vpd (ova / 2 ^ 22) == 0)) [
  | inl y ↦ rw y (inl refl, (λ x k. refl, refl))
  | inr n ↦ rw n (copy_pages-Same 1024 0 ova nva u l)
]

unmap_pages-Same :
    (count i nva : ℕ) (u : User)
    → filebase ≤ nva
    → Returns (unmap_pages count i nva u) (λ _ t. Same u t)
unfolding unmap_pages mem_unmap
unmap_pages-Same zero i nva u l = (λ x k. refl, refl)
unmap_pages-Same (suc count) i nva u l =
    let t : User = record u { vpt = update u.vpt ((nva + i) / 4096) 0 } in
    Returns-weaken _ _ (unmap_pages count (i + 4096) nva t)
      (unmap_pages-Same count (i + 4096) nva t l)
      λ r w h.
        Same-trans u t w
          (λ x k. update_ne u.vpt ((nva + i) / 4096) x 0 (λ e. omega (arith, e, k, l)), refl) h

-- The place of a descriptor's entry in vpt
abbrev pub slot : ℕ → ℕ
slot i = index2fd i / 4096

-- The outcome of dup: the new descriptor has the old one's page; or there was no memory, and it is not mapped.
abbrev pub Shared : ℕ → ℕ → User → Result ℕ → User → Type 0
Shared old new u (ok n) t =
    (n ≡ new)
    × (has_page (t.vpt (slot new)) ≡ true)
    × (t.vpt (slot new) / 4096 ≡ u.vpt (slot old) / 4096)
    × (t.vpt (slot old) ≡ u.vpt (slot old))
    × (t.fds ≡ u.fds)
Shared old new u (err e) t =
    (e ≡ e_no_mem)
    × (has_page (t.vpt (slot new)) ≡ false)
    × (t.vpt (slot old) ≡ u.vpt (slot old))
    × (t.fds ≡ u.fds)

entry_of-has_page : (ppn pte : ℕ) → has_page (entry_of ppn (shared_bits pte)) ≡ true
entry_of-has_page ppn pte = ground arith

entry_of-page : (ppn pte : ℕ) → entry_of ppn (shared_bits pte) / 4096 ≡ ppn
entry_of-page ppn pte = omega arith

module _ (old new : ℕ) (u : User) (l : old < maxfd) (m : new < maxfd)
    (h : has_page (u.vpt (slot old)) ≡ true) (g : has_page (u.vpt (slot new)) ≡ false) where
  distinct : slot new ≢ slot old
  distinct e = absurd (ground (arith, h, g, e))

  cancelled :
      (nva : ℕ) (t : User)
      → filebase ≤ nva
      → Same u t
      → Returns (finish_dup new (index2fd new) nva (err e_no_mem) t) (Shared old new u)
  unfolding finish_dup mem_unmap
  cancelled nva t k s =
      let w : User = record t { vpt = update t.vpt (slot new) 0 } in
      Returns-bind (λ _ v. Same w v) _ (unmap_pages 1024 0 nva) _ w
        (unmap_pages-Same 1024 0 nva w k)
        λ x v q. (
          refl,
          ap has_page (q.0 (slot new) (omega (arith, m)) ∙ update_self t.vpt (slot new) 0),
          q.0 (slot old) (omega (arith, l))
              ∙ (update_ne t.vpt (slot new) (slot old) 0 distinct
                  ∙ s.0 (slot old) (omega (arith, l))),
          q.1 ∙ s.1,
        )

  mapped :
      (nva : ℕ) (t : User)
      → filebase ≤ nva
      → Same u t
      → Returns
          (map_fd (index2fd old) (index2fd new) t)
          (λ r w. Returns (finish_dup new (index2fd new) nva r w) (Shared old new u))
  unfolding map_fd finish_dup
  mapped nva t k s =
      let same : t.vpt (slot old) ≡ u.vpt (slot old) = s.0 (slot old) (omega (arith, l)) in
      let pte : ℕ = t.vpt (slot old) in
      Returns-weaken (Mapped (index2fd new) (entry_of (pte / 4096) (shared_bits pte)) t) _
        (map_fd (index2fd old) (index2fd new) t)
        (mem_map-Mapped (index2fd old) (index2fd new) (shared_bits pte) t (ap has_page same ∙ h))
        (elim [
          | ok x ↦ λ w q.
              let at : w.vpt (slot new) ≡ entry_of (pte / 4096) (shared_bits pte) =
                ap (λ f. f (slot new)) q.0 ∙ update_self t.vpt (slot new) _ in
              (
                refl,
                ap has_page at ∙ entry_of-has_page (pte / 4096) pte,
                ap (λ x. x / 4096) at ∙ (entry_of-page (pte / 4096) pte ∙ ap (λ x. x / 4096) same),
                ap (λ f. f (slot old)) q.0
                    ∙ (update_ne t.vpt (slot new) (slot old) _ distinct ∙ same),
                q.1 ∙ s.1,
              )
          | err e ↦ λ w q.
              subst (λ c. Returns (finish_dup new (index2fd new) nva (err c) w) (Shared old new u))
                (sym q.0) (cancelled nva w k (λ x i. ap (λ f. f x) q.1 ∙ s.0 x i, q.2 ∙ s.1))
        ])

  module _ (devtab : List Dev) where
    lookup_new : fd_lookup new u ≡ err e_inval
    unfolding fd_lookup
    lookup_new =
        let x : (leb maxfd new && ltb new (2 ^ 31)) ≡ false = ground arith in rw (x, g) refl

    lookup_old : fd_lookup old u ≡ ok (index2fd old)
    unfolding fd_lookup
    lookup_old =
        let x : (leb maxfd old && ltb old (2 ^ 31)) ≡ false = ground arith in rw (x, h) refl

    close-new : close devtab new u ≡ done (err e_inval, u)
    unfolding close with_dev
    close-new = attempt-err (look (fd_lookup new)) _ u e_inval u (ap (λ r. done (r, u)) lookup_new)

    copied :
        (ova nva : ℕ)
        → filebase ≤ nva
        → Returns
            (attempt (copy_data ova nva) (λ x. map_fd (index2fd old) (index2fd new)) u)
            (λ r w. Returns (finish_dup new (index2fd new) nva r w) (Shared old new u))
    copied ova nva k =
        Returns-bind (λ r t. NoMem r × Same u t) _ (copy_data ova nva) _ u
          (copy_data-Same ova nva u k)
          (elim [
            | ok x ↦ λ t q. mapped nva t k q.1
            | err e ↦ λ t q.
                let z : e ≡ e_no_mem = NoMem-err e q.0 in
                subst
                  (λ c. Returns (finish_dup new (index2fd new) nva (err c) t) (Shared old new u))
                  (sym z) (cancelled nva t k q.1)
          ])

    -- For an open descriptor and one that is not open, both below 32, and any devices: `dup` comes to
    -- an end. On success it returns the new number, the new descriptor is mapped to the old one's page,
    -- which is mapped as before, and no descriptor's content changes. It fails only with E_NO_MEM, and
    -- then the new descriptor is not mapped and the old one is as before.
    pub dup-Shared : Returns (dup devtab old new u) (Shared old new u)
    unfolding dup
    dup-Shared =
        let nva : ℕ = fd2data (index2fd new) in
        let ova : ℕ = fd2data (index2fd old) in
        subst (λ o. Returns o (Shared old new u))
          (sym (
            attempt-ok (look (fd_lookup old)) _ u (index2fd old) u
              (ap (λ r. done (r, u)) lookup_old)
            ∙ bind-done (close devtab new) _ u (err e_inval) u close-new))
          (Returns-bind (λ r w. Returns (finish_dup new (index2fd new) nva r w) (Shared old new u))
            _ (attempt (copy_data ova nva) (λ x. map_fd (index2fd old) (index2fd new))) _ u
            (copied ova nva (fd2data_past new m)) λ r w q. q)
