-- ===== src/Fork.antt =====
-- user/lib/fork.c: fork and the handler of copy-on-write pages.
pub mod Entries
pub mod Pages
pub mod Isolation
use os_challenge_sudo_shell.Base.{
  ℕ, zero, suc, ◌+◌, ◌-◌, ◌*◌, ◌/◌, ◌%◌, ◌^◌, ◌≡◌, Bool, true, false, not, ◌&&◌, ◌||◌, Option, none,
  some, ltb, ◌==◌, if◌then◌else◌, update, bit_or, Result, ok, err, Outcome, done, stop, panic,
}
use os_challenge_sudo_shell.Memory.{entry_for, is_valid, utop, utemp}

abbrev pub pte_cow : ℕ
pte_cow = 1

abbrev pub has_d : ℕ → Bool
has_d pte = pte / 256 % 2 == 1

abbrev pub has_library : ℕ → Bool
has_library pte = pte / 2 % 2 == 1

abbrev pub has_cow : ℕ → Bool
has_cow pte = pte % 2 == 1

-- VPN(USTACKTOP)
abbrev pub stack_vpn : ℕ
stack_vpn = (utop - 2 * 4096) / 4096

-- What fork changes: the page tables of the parent and of the child, by page numbers of their address
-- spaces; the handlers for writes to pages that are not writable; and the child's status.
pub record Space : Type 0 where
  pub vpd : ℕ → ℕ
  pub vpt : ℕ → ℕ
  pub child : ℕ → ℕ
  pub handler : Bool
  pub child_handler : Bool
  pub child_runnable : Bool

-- What the calls of fork meet, by page numbers of the address space: the pages that the kernel maps to no
-- child, for want of a page table or of such a child; the pages that the parent itself writes in between,
-- those of its stack, which it has written before; and the page that the handler of copy-on-write pages gets
-- from syscall_mem_alloc.
pub record Around : Type 0 where
  pub refused : ℕ → Bool
  pub writes : ℕ → Bool
  pub fresh : ℕ → ℕ

-- sys_mem_map refuses addresses below UTEMP.
abbrev pub low : ℕ → Bool
low vpn = ltb vpn (utemp / 4096)

abbrev pub unmapped : Around → ℕ → Bool
unmapped around vpn = low vpn || around.refused vpn

-- syscall_mem_map to the child, whose result is not looked at
pub map_child : Around → ℕ → ℕ → Space → Space
map_child around vpn perm s = record s {
  child =
      update s.child vpn
        (if unmapped around vpn then s.child vpn else entry_for (s.vpt vpn / 4096) perm);
}

-- syscall_mem_map of a page to itself
pub map_own : ℕ → ℕ → Space → Space
map_own vpn perm s = record s {
  vpt = update s.vpt vpn (if low vpn then s.vpt vpn else entry_for (s.vpt vpn / 4096) perm);
}

-- `(perm & !PTE_COW) | PTE_D`, where `!PTE_COW` is 0
abbrev pub own_perm : ℕ
own_perm = bit_or 0 0x100

-- The entry of a page behind a write of the parent: cow_entry has given it a copy if it was marked.
abbrev pub touched : Around → ℕ → ℕ → ℕ
touched around vpn pte =
    if around.writes vpn && (has_cow pte && not (has_d pte))
    then entry_for (around.fresh vpn) own_perm
    else pte

-- The parent goes on, and writes the page if it is one of its stack.
pub touch : Around → ℕ → Space → Space
touch around vpn s = record s { vpt = update s.vpt vpn (touched around vpn (s.vpt vpn)) }

-- `!(perm & PTE_D) || (perm & PTE_LIBRARY)`
abbrev pub keeps : ℕ → Bool
keeps pte = not (has_d pte) || has_library pte

-- `(perm & !PTE_D) | PTE_COW`, where `!PTE_D` is 0
abbrev pub cow_perm : ℕ
cow_perm = bit_or 0 pte_cow

pub duppage : Around → ℕ → Space → Space
duppage around vpn s =
    if keeps (s.vpt vpn)
    then touch around vpn (map_child around vpn (s.vpt vpn % 4096) s)
    else touch around vpn
        (map_own vpn cow_perm (touch around vpn (map_child around vpn cow_perm s)))

pub dup_if : Bool → Around → ℕ → Space → Space
dup_if true around vpn s = duppage around vpn s
dup_if false around vpn s = s

-- The inner loop of fork, over `count` pages from `vpn` on
pub dup_pages : ℕ → Around → ℕ → Space → Space
dup_pages zero around vpn s = s
dup_pages (suc count) around vpn s =
    dup_pages count around (vpn + 1)
      (dup_if (ltb vpn stack_vpn && is_valid (s.vpt vpn)) around vpn s)

pub dup_table : Bool → Around → ℕ → Space → Space
dup_table true around i s = dup_pages 1024 around (i * 1024) s
dup_table false around i s = s

-- The outer loop, over `count` page tables from `i` on
pub dup_tables : ℕ → Around → ℕ → Space → Space
dup_tables zero around i s = s
dup_tables (suc count) around i s =
    dup_tables count around (i + 1) (dup_table (is_valid (s.vpd i)) around i s)

-- PDX(ROUND(USTACKTOP, PDMAP))
abbrev pub stack_tables : ℕ
stack_tables = (utop - 2 * 4096 + 2 ^ 22 - 1) / 2 ^ 22

-- fork, by the answer of syscall_exofork. An error is not looked at: the loops run, and no call on the child
-- succeeds.
pub fork : Around → Result ℕ → Space → Result ℕ × Space
fork around (ok zero) s = (ok 0, record s { handler = true })
fork around (ok (suc n)) s = (
  ok (suc n),
  record (dup_tables stack_tables around 0 (record s { handler = true })) {
    child_handler = true;
    child_runnable = true;
  },
)
fork around (err e) s = (
  err e,
  dup_tables stack_tables (record around { refused = λ vpn. true }) 0 (record s { handler = true }),
)

-- What the handler changes: the page tables and the words of the pages. `fresh` is the page that
-- syscall_mem_alloc gives.
pub record Cow : Type 0 where
  pub vpt : ℕ → ℕ
  pub words : ℕ → ℕ → ℕ

-- VPN(UCOW)
abbrev pub ucow_vpn : ℕ
ucow_vpn = 0x3ff

copied : ℕ → ℕ → Cow → Cow
copied fresh vpn s = record s {
  vpt = update (update s.vpt vpn (entry_for fresh own_perm)) ucow_vpn 0;
  words = update s.words fresh (s.words (s.vpt vpn / 4096));
}

-- cow_entry up to its return to the faulting code. With no page left the copy to UCOW cannot be made.
pub cow_entry : Option ℕ → ℕ → Cow → Outcome Cow
cow_entry none va s = stop panic
cow_entry (some fresh) va s =
    if has_cow (s.vpt (va / 4096)) then done (copied fresh (va / 4096) s) else stop panic
