-- ===== src/Serve.antt =====
-- fs/serv.c: the table of open files and the requests to the file server.
pub mod Opens
pub mod Kept
pub mod Answers
pub mod Descriptor
use os_challenge_sudo_shell.Base.{
  ℕ, zero, suc, ◌+◌, ◌-◌, ◌*◌, ◌/◌, ◌%◌, ◌^◌, ◌≡◌, Bool, true, false, not, ◌&&◌, Option, none, some,
  List, [], ◌∷◌, leb, ◌==◌, if◌then◌else◌, update, Exec, Outcome, done, stop, fault, panic, pure,
  halt, modify, branch, attempt, ◌>>=◌, ◌>>◌, Error, Result, ok, err, e_inval, e_no_mem, e_max_open,
  e_file_exists,
}
use os_challenge_sudo_shell.Base.Bitmap.{bit}
use os_challenge_sudo_shell.Fs.{Fs, block_size}
use os_challenge_sudo_shell.Files.{
  Place, word_at, field, diskmap, file_get_block, file_set_size, file_close, file_dirty, fs_sync,
}
use os_challenge_sudo_shell.Memory.{is_valid}
use os_challenge_sudo_shell.Paths.{file_open, file_create, file_remove}

abbrev pub maxopen : ℕ
maxopen = 1024

abbrev pub fileva : ℕ
fileva = 0x60000000

-- PTE_D | PTE_LIBRARY
abbrev pub shared_perm : ℕ
shared_perm = 0x102

-- An o_file that was never set is a null pointer. The page of the descriptor is its address.
pub record Open : Type 0 where
  pub o_file : Option Place
  pub o_fileid : ℕ
  pub o_mode : ℕ
  pub o_ff : ℕ

-- struct Filefd, with the 64 words of the file's entry
pub record Filefd : Type 0 where
  pub fd_dev_id : ℕ
  pub fd_offset : ℕ
  pub fd_omode : ℕ
  pub f_fileid : ℕ
  pub f_file : ℕ → ℕ

-- What ipc_send passes to an environment
pub record Reply : Type 0 where
  pub whom : ℕ
  pub value : Result (Unit {0})
  pub page : Option ℕ
  pub perm : ℕ

pub record Server : Type 0 where
  pub fs : Fs
  pub opentab : ℕ → Open
  -- the descriptor pages, by their address
  pub filefd : ℕ → Filefd
  -- the replies, the last one first
  pub sent : List Reply
  -- whether a page is mapped at REQVA
  pub reqva : Bool
  -- whether the kernel refuses the next message, by the replies so far and the addressee, for another reason
  -- than that the addressee does not wait
  pub refused : List Reply → ℕ → Bool

-- The page at REQVA, as the request's structure has it: req_path; req_omode or remove_type; req_fileid;
-- req_offset or req_size.
pub record Fsreq : Type 0 where
  pub path : List ℕ
  pub mode : ℕ
  pub fileid : ℕ
  pub offset : ℕ

-- The file system's code, on the server's state
pub lift : {A : Type 0} → Outcome (A × Fs) → Server → Outcome (A × Server)
lift (done (a, t)) v = done (a, record v { fs = t })
lift (stop w) v = stop w

pub on_fs : {A : Type 0} → Exec Fs A → Exec Server A
on_fs m v = lift (m v.fs) v

-- It tries until the addressee waits. A message that is refused is a failed user_assert.
pub ipc_send : ℕ → Result (Unit {0}) → Option ℕ → ℕ → Exec Server (Unit {0})
ipc_send envid r srcva perm v =
    if v.refused v.sent envid
    then stop panic
    else done (
      tt,
      record v { sent = record { whom = envid; value = r; page = srcva; perm = perm } ∷ v.sent },
    )

-- `ipc_send(envid, r, 0, 0)`
abbrev pub answer : ℕ → Result (Unit {0}) → Exec Server (Unit {0})
answer envid r = ipc_send envid r none 0

-- The loop of serve_init, over `count` entries from `i` on
pub init_opens : ℕ → ℕ → ℕ → Exec Server (Unit {0})
init_opens zero i va = pure tt
init_opens (suc count) i va =
    modify (λ v. record v {
      opentab = update v.opentab i (record (v.opentab i) { o_fileid = i; o_ff = va });
    })
    >> init_opens count (i + 1) ((va + block_size) % 2 ^ 32)

pub serve_init : Exec Server (Unit {0})
serve_init = init_opens maxopen 0 fileva

-- syscall_mem_alloc of a descriptor page
new_page : ℕ → Exec Server (Result (Unit {0}))
new_page zero v = done (err e_no_mem, v)
new_page (suc n) v = done (ok tt, record v { fs = record (v.fs) { room = n } })

pub blank : Filefd
blank = record { fd_dev_id = 0; fd_offset = 0; fd_omode = 0; f_fileid = 0; f_file = λ k. 0 }

-- `*o = &opentab[i]`, with the place in the table for the pointer
pub take_open : ℕ → Exec Server (Result ℕ)
take_open i =
    modify (λ v. record v { filefd = update v.filefd (v.opentab i).o_ff blank }) >> pure (ok i)

-- The switch of open_alloc, where `next` is the rest of the loop.
pub by_refs : Exec Server (Result ℕ) → ℕ → ℕ → Exec Server (Result ℕ)
by_refs next i zero = attempt (λ v. new_page v.fs.room v) λ x. take_open i
by_refs next i (suc zero) = take_open i
by_refs next i (suc (suc n)) = next

-- The loop of open_alloc, over `count` entries from `i` on. `pageref` counts the mappings of a page in all
-- environments; the others change it between two requests.
pub open_from : (ℕ → ℕ) → ℕ → ℕ → Exec Server (Result ℕ)
open_from pageref zero i = pure (err e_max_open)
open_from pageref (suc count) i =
    λ v. by_refs (open_from pageref count (i + 1)) i (pageref (v.opentab i).o_ff) v

pub open_alloc : (ℕ → ℕ) → Exec Server (Result ℕ)
open_alloc pageref = open_from pageref maxopen 0

pub open_lookup : (ℕ → ℕ) → ℕ → Server → Result ℕ
open_lookup pageref fileid v =
    if leb maxopen fileid
    then err e_inval
    else (if leb (pageref (v.opentab fileid).o_ff) 1 then err e_inval else ok fileid)

-- An existing file is no error for serve_open.
pub tolerate : Result Place → Result (Unit {0})
tolerate (ok f) = ok tt
tolerate (err e_file_exists) = ok tt
tolerate (err e) = err e

pub create_if : Bool → ℕ → List ℕ → Exec Fs (Result (Unit {0}))
create_if false mode path = pure (ok tt)
create_if true mode path = file_create mode path >>= λ r. pure (tolerate r)

-- O_CREAT is bit 8 of the mode, O_TRUNC bit 9 and O_MKDIR bit 11.
pub find_or_create : ℕ → List ℕ → Exec Fs (Result Place)
find_or_create mode path =
    attempt (create_if (bit 8 mode) mode path)
      λ x. attempt (create_if (bit 11 mode) mode path) λ y. file_open path

-- A failed file_set_size is answered, and the code goes on.
pub report : ℕ → Result (Unit {0}) → Exec Server (Unit {0})
report envid (ok x) = pure tt
report envid (err e) = answer envid (err e)

pub truncate_if : Bool → ℕ → Place → Exec Server (Unit {0})
truncate_if false envid f = pure tt
truncate_if true envid f = on_fs (file_set_size f 0) >>= report envid

-- devfile.dev_id
abbrev pub dev_file : ℕ
dev_file = 102

fill_filefd : ℕ → ℕ → Place → Server → Server
fill_filefd mode i f v = record v {
  filefd = update v.filefd (v.opentab i).o_ff (record (v.filefd (v.opentab i).o_ff) {
    fd_dev_id = dev_file;
    fd_omode = mode;
    f_fileid = (v.opentab i).o_fileid;
    f_file = λ k. word_at (field k f) v.fs;
  });
  opentab = update v.opentab i (record (v.opentab i) { o_mode = mode });
}

-- `o->o_file = f`
set_file : ℕ → Place → Server → Server
set_file i f v = record v {
  opentab = update v.opentab i (record (v.opentab i) { o_file = some f });
}

pub open_at : ℕ → ℕ → ℕ → Result Place → Exec Server (Unit {0})
open_at envid mode i (err e) = answer envid (err e)
open_at envid mode i (ok f) =
    modify (set_file i f)
    >> (truncate_if (bit 9 mode) envid f
        >> (modify (fill_filefd mode i f)
            >> (λ v. ipc_send envid (ok tt) (some (v.opentab i).o_ff) shared_perm v)))

pub open_in : ℕ → Fsreq → Result ℕ → Exec Server (Unit {0})
open_in envid rq (err e) = answer envid (err e)
open_in envid rq (ok i) = on_fs (find_or_create rq.mode rq.path) >>= open_at envid rq.mode i

pub serve_open : (ℕ → ℕ) → ℕ → Fsreq → Exec Server (Unit {0})
serve_open pageref envid rq = open_alloc pageref >>= open_in envid rq

-- What reads an o_file follows it.
pub follow : {A : Type 0} → Option Place → (Place → Exec Server A) → Exec Server A
follow none k = halt fault
follow (some f) k = k f

pub with_entry : ℕ → (Place → Exec Server (Unit {0})) → Result ℕ → Exec Server (Unit {0})
with_entry envid k (err e) = answer envid (err e)
with_entry envid k (ok i) = λ v. follow (v.opentab i).o_file k v

-- The start that serve_map, serve_set_size, serve_close and serve_dirty share
pub with_open : (ℕ → ℕ) → ℕ → ℕ → (Place → Exec Server (Unit {0})) → Exec Server (Unit {0})
with_open pageref envid fileid k v = with_entry envid k (open_lookup pageref fileid v) v

-- disk_addr
abbrev pub disk_addr : ℕ → ℕ
disk_addr b = diskmap + b * block_size

pub send_block : ℕ → Result ℕ → Exec Server (Unit {0})
send_block envid (err e) = answer envid (err e)
send_block envid (ok b) = ipc_send envid (ok tt) (some (disk_addr b)) shared_perm

pub serve_map : (ℕ → ℕ) → ℕ → Fsreq → Exec Server (Unit {0})
serve_map pageref envid rq =
    with_open pageref envid rq.fileid
      λ f. on_fs (file_get_block f (rq.offset / block_size)) >>= send_block envid

pub serve_set_size : (ℕ → ℕ) → ℕ → Fsreq → Exec Server (Unit {0})
serve_set_size pageref envid rq =
    with_open pageref envid rq.fileid λ f. on_fs (file_set_size f rq.offset) >>= answer envid

pub serve_close : (ℕ → ℕ) → ℕ → Fsreq → Exec Server (Unit {0})
serve_close pageref envid rq =
    with_open pageref envid rq.fileid λ f. on_fs (file_close f) >> answer envid (ok tt)

pub serve_remove : ℕ → Fsreq → Exec Server (Unit {0})
serve_remove envid rq = on_fs (file_remove rq.path rq.mode) >>= answer envid

pub serve_dirty : (ℕ → ℕ) → ℕ → Fsreq → Exec Server (Unit {0})
serve_dirty pageref envid rq =
    with_open pageref envid rq.fileid λ f. on_fs (file_dirty f rq.offset) >>= answer envid

pub serve_sync : ℕ → Exec Server (Unit {0})
serve_sync envid = on_fs fs_sync >> answer envid (ok tt)

abbrev pub max_fsreqno : ℕ
max_fsreqno = 7

-- serve_table, which has an entry for each number below MAX_FSREQNO
pub serve_table : ℕ → (ℕ → ℕ) → ℕ → Fsreq → Exec Server (Unit {0})
serve_table zero pageref envid rq = serve_open pageref envid rq
serve_table (suc zero) pageref envid rq = serve_map pageref envid rq
serve_table (suc (suc zero)) pageref envid rq = serve_set_size pageref envid rq
serve_table (suc (suc (suc zero))) pageref envid rq = serve_close pageref envid rq
serve_table (suc (suc (suc (suc zero)))) pageref envid rq = serve_dirty pageref envid rq
serve_table (suc (suc (suc (suc (suc zero))))) pageref envid rq = serve_remove envid rq
serve_table (suc (suc (suc (suc (suc (suc zero)))))) pageref envid rq = serve_sync envid
serve_table (suc (suc (suc (suc (suc (suc (suc n))))))) pageref envid rq = halt fault

-- What ipc_recv gives: the sender, its value and env_ipc_perm; the page that the sender has mapped at REQVA,
-- if it sent one; and pageref while the request is served. The kernel sets PTE_V in env_ipc_perm whether a
-- page is sent or not.
pub record Request : Type 0 where
  pub whom : ℕ
  pub req : ℕ
  pub perm : ℕ
  pub page : Option Fsreq
  pub pageref : ℕ → ℕ

abbrev pub map_request : Bool → Exec Server (Unit {0})
map_request b = modify λ v. record v { reqva = b }

-- What is read at REQVA. Without a page there, the kernel maps a zeroed one at the first access.
pub at_reqva : Option Fsreq → Fsreq
at_reqva none = record { path = []; mode = 0; fileid = 0; offset = 0 }
at_reqva (some rq) = rq

pub is_sent : Option Fsreq → Bool
is_sent none = false
is_sent (some rq) = true

-- A round of the loop of serve behind the test of PTE_V
pub serve_valid : Request → Exec Server (Unit {0})
serve_valid r =
    branch (leb max_fsreqno r.req) (map_request false)
      (serve_table r.req r.pageref r.whom (at_reqva r.page) >> map_request false)

-- One round of the loop of serve
pub serve_request : Request → Exec Server (Unit {0})
serve_request r = map_request (is_sent r.page) >> branch (is_valid r.perm) (serve_valid r) (pure tt)

pub serve : List Request → Exec Server (Unit {0})
serve [] = pure tt
serve (r ∷ rs) = serve_request r >> serve rs
