-- ===== src/Fd.antt =====
-- user/lib/fd.c: file descriptors, as pages of the environment's own address space.
pub mod Numbers
pub mod Reading
pub mod Sharing
use os_challenge_sudo_shell.Base.{
  ℕ, zero, suc, ◌+◌, ◌-◌, ◌*◌, ◌/◌, ◌%◌, ◌^◌, ◌≡◌, Bool, true, false, not, ◌&&◌, ◌||◌, Option, none,
  some, List, [], ◌∷◌, leb, ltb, ◌==◌, if◌then◌else◌, update, Exec, Outcome, done, stop, pure,
  modify, branch, attempt, panic_on, ◌>>=◌, ◌>>◌, Result, ok, err, e_inval, e_no_mem, e_max_open,
}

abbrev pub maxfd : ℕ
maxfd = 32

abbrev pub filebase : ℕ
filebase = 0x60000000

-- PTMAP and PDMAP are 4096 and 2^22.
abbrev pub fdtable : ℕ
fdtable = 0x5fc00000

-- INDEX2FD and INDEX2DATA, in 32 bits
abbrev pub index2fd : ℕ → ℕ
index2fd i = (fdtable + i * 4096) % 2 ^ 32

abbrev pub index2data : ℕ → ℕ
index2data i = (filebase + i * 2 ^ 22) % 2 ^ 32

-- PTE_V of an entry
abbrev pub has_page : ℕ → Bool
has_page pte = pte / 128 % 2 == 1

-- `pte & (PTE_D | PTE_LIBRARY)`
abbrev pub shared_bits : ℕ → ℕ
shared_bits pte = pte / 256 % 2 * 256 + pte / 2 % 2 * 2

pub record Fd : Type 0 where
  pub fd_dev_id : ℕ
  pub fd_offset : ℕ
  pub fd_omode : ℕ

pub record Stat : Type 0 where
  pub st_name : List ℕ
  pub st_size : ℕ
  pub st_isdir : ℕ
  pub st_dev : ℕ

-- An environment's view of its address space: `vpd` and `vpt` are its page directory and tables. A table that
-- is missing reads as zero, as the kernel maps an empty one when it is read.
pub record User : Type 0 where
  pub vpd : ℕ → ℕ
  pub vpt : ℕ → ℕ
  -- the descriptors in the pages, by page number
  pub fds : ℕ → Fd
  pub mem : ℕ → ℕ
  -- how many page tables the kernel can still allocate
  pub room : ℕ

-- The functions of a device: struct Dev
pub record Dev : Type 0 where
  pub dev_id : ℕ
  pub dev_read : ℕ → ℕ → ℕ → ℕ → Exec User (Result ℕ)
  pub dev_write : ℕ → ℕ → ℕ → ℕ → Exec User (Result ℕ)
  pub dev_close : ℕ → Exec User (Result (Unit {0}))
  pub dev_stat : ℕ → Stat → Exec User (Result Stat)

-- The number of the page that is mapped at an address
abbrev pub page_at : ℕ → User → ℕ
page_at va u = u.vpt (va / 4096) / 4096

-- `*fd`
abbrev pub fd_at : ℕ → User → Fd
fd_at va u = u.fds (page_at va u)

pub set_offset : ℕ → ℕ → User → User
set_offset va off u = record u {
  fds = update u.fds (page_at va u) (record (fd_at va u) { fd_offset = off });
}

-- syscall_mem_unmap(0, va)
pub mem_unmap : ℕ → Exec User (Result (Unit {0}))
mem_unmap va u = done (ok tt, record u { vpt = update u.vpt (va / 4096) 0 })

-- The entry that the kernel writes for a page
abbrev pub entry_of : ℕ → ℕ → ℕ
entry_of ppn perm = ppn * 4096 + (perm + 128 + 0x600)

pub add_table : ℕ → ℕ → Exec User (Result (Unit {0}))
add_table va zero u = done (err e_no_mem, u)
add_table va (suc n) u = done (ok tt, record u { vpd = update u.vpd (va / 2 ^ 22) 128; room = n })

pub table_for : ℕ → Exec User (Result (Unit {0}))
table_for va u = branch (has_page (u.vpd (va / 2 ^ 22))) (pure (ok tt)) (add_table va u.room) u

pub map_page : ℕ → ℕ → ℕ → Exec User (Result (Unit {0}))
map_page ppn dst perm u =
    done (ok tt, record u { vpt = update u.vpt (dst / 4096) (entry_of ppn perm) })

-- syscall_mem_map(0, src, 0, dst, perm)
pub mem_map : ℕ → ℕ → ℕ → Exec User (Result (Unit {0}))
mem_map src dst perm u =
    branch (has_page (u.vpt (src / 4096)))
      (attempt (table_for dst) λ x. map_page (page_at src u) dst perm) (pure (err e_inval)) u

-- The loop of dev_lookup
pub dev_lookup : List Dev → ℕ → Result Dev
dev_lookup [] id = err e_inval
dev_lookup (d ∷ ds) id = let rest = dev_lookup ds id in if d.dev_id == id then ok d else rest

-- A descriptor that is not mapped, which fd_alloc can give
abbrev pub unused : ℕ → User → Bool
unused i u =
    not (has_page (u.vpd (index2fd i / 2 ^ 22))) || not (has_page (u.vpt (index2fd i / 4096)))

-- The loop of fd_alloc, over `count` descriptors from `i` on
pub alloc_from : ℕ → ℕ → User → Result ℕ
alloc_from zero i u = err e_max_open
alloc_from (suc count) i u =
    let rest = alloc_from count (i + 1) u in if unused i u then ok (index2fd i) else rest

pub fd_alloc : User → Result ℕ
fd_alloc u = alloc_from (maxfd - 1) 0 u

pub fd_close : ℕ → Exec User (Unit {0})
fd_close fd = panic_on (mem_unmap fd)

-- The comparison is signed: the number is a 32-bit word, and those from 2^31 on are negative.
pub fd_lookup : ℕ → User → Result ℕ
fd_lookup fdnum u =
    if leb maxfd fdnum && ltb fdnum (2 ^ 31)
    then err e_inval
    else (if has_page (u.vpt (index2fd fdnum / 4096)) then ok (index2fd fdnum) else err e_inval)

pub fd2num : ℕ → ℕ
fd2num fd = (fd + 2 ^ 32 - fdtable) % 2 ^ 32 / 4096

pub fd2data : ℕ → ℕ
fd2data fd = index2data (fd2num fd)

pub num2fd : ℕ → ℕ
num2fd fd = (fd * 4096 + fdtable) % 2 ^ 32

abbrev pub look : {A : Type 0} → (User → Result A) → Exec User (Result A)
look f u = done (f u, u)

-- The loop of dup over the pages of the data, `count` of them from byte `i` on
pub copy_pages : ℕ → ℕ → ℕ → ℕ → Exec User (Result (Unit {0}))
copy_pages zero i ova nva = pure (ok tt)
copy_pages (suc count) i ova nva = λ u.
    branch (has_page (u.vpt ((ova + i) / 4096)))
      (attempt (mem_map (ova + i) (nva + i) (shared_bits (u.vpt ((ova + i) / 4096))))
        λ x. copy_pages count (i + 4096) ova nva)
      (copy_pages count (i + 4096) ova nva) u

pub copy_data : ℕ → ℕ → Exec User (Result (Unit {0}))
copy_data ova nva =
    λ u. branch (u.vpd (ova / 2 ^ 22) == 0) (pure (ok tt)) (copy_pages 1024 0 ova nva) u

pub unmap_pages : ℕ → ℕ → ℕ → Exec User (Unit {0})
unmap_pages zero i nva = pure tt
unmap_pages (suc count) i nva = panic_on (mem_unmap (nva + i)) >> unmap_pages count (i + 4096) nva

-- The end of dup; an error cancels what was mapped.
pub finish_dup : ℕ → ℕ → ℕ → Result (Unit {0}) → Exec User (Result ℕ)
finish_dup newfdnum newfd nva (ok x) = pure (ok newfdnum)
finish_dup newfdnum newfd nva (err e) =
    panic_on (mem_unmap newfd) >> (unmap_pages 1024 0 nva >> pure (err e))

pub map_fd : ℕ → ℕ → Exec User (Result (Unit {0}))
map_fd oldfd newfd = λ u. mem_map oldfd newfd (shared_bits (u.vpt (oldfd / 4096))) u

-- What read and write do with the device's result
pub advance : ℕ → Result ℕ → Exec User (Result ℕ)
advance fd (ok n) =
    modify (λ u. set_offset fd (((fd_at fd u).fd_offset + n) % 2 ^ 32) u) >> pure (ok n)
advance fd (err e) = pure (err e)

-- The functions that ask a device take the table of devices.
module _ (devtab : List Dev) where
  pub with_dev : {A : Type 0} → ℕ → (ℕ → Dev → Exec User (Result A)) → Exec User (Result A)
  with_dev fdnum k =
      attempt (look (fd_lookup fdnum))
        λ fd. attempt (look (λ u. dev_lookup devtab (fd_at fd u).fd_dev_id)) λ dev. k fd dev

  pub close : ℕ → Exec User (Result (Unit {0}))
  close fdnum = with_dev fdnum λ fd dev. dev.dev_close fd >>= λ r. fd_close fd >> pure r

  -- The loop of close_all
  pub close_from : ℕ → ℕ → Exec User (Unit {0})
  close_from zero i = pure tt
  close_from (suc count) i = close i >>= λ r. close_from count (i + 1)

  pub close_all : Exec User (Unit {0})
  close_all = close_from maxfd 0

  pub dup : ℕ → ℕ → Exec User (Result ℕ)
  dup oldfdnum newfdnum = attempt (look (fd_lookup oldfdnum)) λ oldfd. close newfdnum >>= λ r.
      attempt (copy_data (fd2data oldfd) (fd2data (index2fd newfdnum)))
        (λ x. map_fd oldfd (index2fd newfdnum))
      >>= finish_dup newfdnum (index2fd newfdnum) (fd2data (index2fd newfdnum))

  -- O_WRONLY is 1, O_RDONLY is 0, and O_ACCMODE is 3.
  pub read : ℕ → ℕ → ℕ → Exec User (Result ℕ)
  read fdnum buf n = with_dev fdnum λ fd dev. λ u.
      branch ((fd_at fd u).fd_omode % 4 == 1) (pure (err e_inval))
        (dev.dev_read fd buf n (fd_at fd u).fd_offset >>= advance fd) u

  pub write : ℕ → ℕ → ℕ → Exec User (Result ℕ)
  write fdnum buf n = with_dev fdnum λ fd dev. λ u.
      branch ((fd_at fd u).fd_omode % 4 == 0) (pure (err e_inval))
        (dev.dev_write fd buf n (fd_at fd u).fd_offset >>= advance fd) u

  -- What one round of readn does with the result of read, where `next` is the rest of the loop
  pub read_more : (ℕ → Exec User (Result ℕ)) → ℕ → Result ℕ → Exec User (Result ℕ)
  read_more next tot (err e) = pure (err e)
  read_more next tot (ok zero) = pure (ok tot)
  read_more next tot (ok (suc m)) = next (tot + suc m)

  -- The loop of readn. The fuel is the number of bytes that are asked for, as each round but the last reads
  -- one at least.
  pub readn_from : ℕ → ℕ → ℕ → ℕ → ℕ → Exec User (Result ℕ)
  readn_from zero fdnum buf n tot = pure (ok tot)
  readn_from (suc fuel) fdnum buf n tot =
      branch (ltb tot n)
        (read fdnum (buf + tot) (n - tot) >>= read_more (readn_from fuel fdnum buf n) tot)
        (pure (ok tot))

  pub readn : ℕ → ℕ → ℕ → Exec User (Result ℕ)
  readn fdnum buf n = readn_from n fdnum buf n 0

  pub seek : ℕ → ℕ → Exec User (Result (Unit {0}))
  seek fdnum offset =
      attempt (look (fd_lookup fdnum)) λ fd. modify (set_offset fd offset) >> pure (ok tt)

  pub fstat : ℕ → Exec User (Result Stat)
  fstat fdnum = with_dev fdnum λ fd dev.
      dev.dev_stat fd (record { st_name = []; st_size = 0; st_isdir = 0; st_dev = dev.dev_id })
