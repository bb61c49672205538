-- ===== src/Serve/Descriptor.antt =====
-- fs/serv.c: the descriptor that serve_open hands out, and open_lookup.
use os_challenge_sudo_shell.Base.{
  ℕ, zero, suc, ◌+◌, ◌*◌, ◌%◌, ◌^◌, ◌≤◌, ◌<◌, ◌≡◌, refl, sym, ap, ◌∙◌, false, leb, ◌==◌, update,
  Option, none, some, List, ◌∷◌, Result, ok, err, arith, subst, Holds, Holds-bind, Returns,
  Returns-Holds, Returns-bind, Outcome, done, stop, Exec, Returns-weaken, update_self, update_ne,
  Bool-cases, inl, inr, ==_iff,
}
use os_challenge_sudo_shell.Base.Bitmap.{bit}
use os_challenge_sudo_shell.Files.{Place, word_at, field}
use os_challenge_sudo_shell.Serve.{
  Open, Filefd, Reply, Server, Fsreq, ipc_send, answer, open_alloc, open_lookup, find_or_create,
  truncate_if, fill_filefd, set_file, open_at, open_in, serve_open, maxopen, fileva, init_opens,
  serve_init, new_page, by_refs, take_open, open_from, shared_perm, dev_file,
}
use os_challenge_sudo_shell.Serve.Opens.{Given, open_alloc-Given}
use os_challenge_sudo_shell.Serve.Kept.{Only, on_fs-at, ipc_send-Holds, truncate_if-Only}
use os_challenge_sudo_shell.Fs.{Fs}

-- The entries have their numbers, as serve_init sets them.
abbrev pub Numbered : Server → Type 0
Numbered v = (k : ℕ) → k < maxopen → (v.opentab k).o_fileid ≡ k

-- Opening the path gives this file. open_alloc can have taken a page before, so the room is another one.
abbrev pub Opened : Fsreq → Fs → Place → Type 0
Opened rq s f =
    (n : ℕ) × (u : Fs) × (◌≡◌ {A = Outcome (Result Place × Fs)}
      (find_or_create rq.mode rq.path (record s { room = n })) (done (ok f, u)))

-- The reply that was sent last, and what a page in it is when the client has mapped it.
abbrev pub Handed : (ℕ → ℕ) → ℕ → (Place → Type 0) → List Reply → Server → Type 0
Handed pageref envid P sent t =
    (r : Reply) × (t.sent ≡ r ∷ sent)
    × (r.whom ≡ envid)
    × ((p : ℕ)
        → r.page ≡ some p
        → 1 < pageref p
        → (k : ℕ) × (f : Place) × P f
          × (open_lookup pageref (t.filefd p).f_fileid t ≡ ok k)
          × ((t.opentab k).o_file ≡ some f)
          × ((t.opentab k).o_ff ≡ p)
          × ((j : ℕ) → (t.filefd p).f_file j ≡ word_at (field j f) t.fs))

-- Of the file system, just the room can have changed.
abbrev Roomy : Server → Server → Type 0
Roomy v t = (n : ℕ) × (t.fs ≡ record (v.fs) { room = n })

new_page-Roomy : (n : ℕ) (v : Server) → Returns (new_page n v) (λ _ t. Roomy v t)
unfolding new_page
new_page-Roomy zero v = (v.fs.room, refl)
new_page-Roomy (suc n) v = (n, refl)

by_refs-Roomy :
    (next : Exec Server (Result ℕ)) (i n : ℕ) (v : Server)
    → Returns (next v) (λ _ t. Roomy v t)
    → Returns (by_refs next i n v) (λ _ t. Roomy v t)
unfolding by_refs take_open
by_refs-Roomy next i zero v h =
    Returns-bind (λ _ t. Roomy v t) _ (λ w. new_page w.fs.room w) _ v (new_page-Roomy v.fs.room v)
      (elim [ ok x ↦ λ t r. r | err e ↦ λ t r. r ])
by_refs-Roomy next i (suc zero) v h = (v.fs.room, refl)
by_refs-Roomy next i (suc (suc n)) v h = h

open_from-Roomy :
    (pageref : ℕ → ℕ) (count i : ℕ) (v : Server)
    → Returns (open_from pageref count i v) (λ _ t. Roomy v t)
unfolding open_from
open_from-Roomy pageref zero i v = (v.fs.room, refl)
open_from-Roomy pageref (suc count) i v =
    by_refs-Roomy (open_from pageref count (i + 1)) i (pageref (v.opentab i).o_ff) v
      (open_from-Roomy pageref count (i + 1) v)

open_alloc-both :
    (pageref : ℕ → ℕ) (v : Server)
    → Returns (open_alloc pageref v) (λ r t. Given pageref maxopen 0 v r t × Roomy v t)
unfolding open_alloc
open_alloc-both pageref v =
    both (open_alloc pageref v) (open_alloc-Given pageref v) (open_from-Roomy pageref maxopen 0 v)
  where
    both :
        (o : Outcome (Result ℕ × Server))
        → Returns o (Given pageref maxopen 0 v)
        → Returns o (λ _ t. Roomy v t)
        → Returns o (λ r t. Given pageref maxopen 0 v r t × Roomy v t)
    both (done x) a b = (a, b)
    both (stop w) a b = a

some-inj : (a b : ℕ) → ◌≡◌ {A = Option ℕ} (some a) (some b) → a ≡ b
some-inj a b = ap λ (o : Option ℕ). elim o [ none ↦ a | some x ↦ x ]

module _ (pageref : ℕ → ℕ) (envid : ℕ) where
  answer-Handed :
      (P : Place → Type 0) (r : Result (Unit {0})) (sent : List Reply) (w : Server)
      → w.sent ≡ sent
      → Holds (answer envid r w) (λ _ t. Handed pageref envid P sent t)
  answer-Handed P r sent w e = ipc_send-Holds envid r none 0 w _ (
    record { whom = envid; value = r; page = none; perm = 0 },
    λ i. record { whom = envid; value = r; page = none; perm = 0 } ∷ e i,
    refl,
    λ p q l. absurd (ground (arith, q)),
  )

  open_lookup-ok :
      (k : ℕ) (t : Server)
      → k < maxopen
      → 1 < pageref (t.opentab k).o_ff
      → open_lookup pageref k t ≡ ok k
  unfolding open_lookup
  open_lookup-ok k t l h =
      let a : leb maxopen k ≡ false = ground arith in
      let b : leb (pageref (t.opentab k).o_ff) 1 ≡ false = ground (arith, h) in rw (a, b) refl

  -- The end of serve_open, on the state in which it has set o_file
  filled-Handed :
      (P : Place → Type 0) (mode k : ℕ) (f : Place) (sent : List Reply) (t : Server)
      → P f
      → k < maxopen
      → (t.opentab k).o_fileid ≡ k
      → (t.opentab k).o_file ≡ some f
      → t.sent ≡ sent
      → Holds
          (ipc_send envid
            (ok tt)
            (some ((fill_filefd mode k f t).opentab k).o_ff)
            shared_perm
            (fill_filefd mode k f t))
          (λ _ u. Handed pageref envid P sent u)
  unfolding fill_filefd
  filled-Handed P mode k f sent t o l q e g =
      let entry : Open = record (t.opentab k) { o_mode = mode } in
      let here : update t.opentab k entry k ≡ entry = update_self t.opentab k entry in
      let page : Filefd = record (t.filefd (t.opentab k).o_ff) {
        fd_dev_id = dev_file;
        fd_omode = mode;
        f_fileid = (t.opentab k).o_fileid;
        f_file = λ j. word_at (field j f) t.fs;
      } in
      let ff : ℕ = (t.opentab k).o_ff in
      let r : Reply = record {
        whom = envid;
        value = ok tt;
        page = some (update t.opentab k entry k).o_ff;
        perm = shared_perm;
      } in
      let u : Server = record (fill_filefd mode k f t) { sent = r ∷ t.sent } in
      ipc_send-Holds envid (ok tt) (some (update t.opentab k entry k).o_ff) shared_perm
        (fill_filefd mode k f t) _
        (
          r,
          λ i. r ∷ g i,
          refl,
          λ p z h.
              let pe : (update t.opentab k entry k).o_ff ≡ p = some-inj _ p z in
              let at : u.filefd p ≡ page =
                subst (λ x. u.filefd x ≡ page) (sym (ap (λ (x : Open). x.o_ff) here) ∙ pe)
                  (update_self t.filefd ff page) in
              (
                k,
                f,
                o,
                ap (λ x. open_lookup pageref x u) (ap (λ (x : Filefd). x.f_fileid) at ∙ q)
                    ∙ open_lookup-ok k u l (subst (λ x. 1 < pageref x) (sym pe) h),
                ap (λ (x : Open). x.o_file) here ∙ e,
                pe,
                λ j. ap (λ (x : Filefd). x.f_file j) at,
              ),
        )

  open_at-Handed :
      (P : Place → Type 0) (mode k : ℕ) (r : Result Place) (sent : List Reply) (w : Server)
      → ((f : Place) → r ≡ ok f → P f)
      → k < maxopen
      → (w.opentab k).o_fileid ≡ k
      → w.sent ≡ sent
      → Holds (open_at envid mode k r w) (λ _ t. Handed pageref envid P sent t)
  unfolding open_at set_file
  open_at-Handed P mode k (err e) sent w o l q g = answer-Handed P (err e) sent w g
  open_at-Handed P mode k (ok f) sent w p l q g =
      let here : (set_file k f w).opentab k ≡ record (w.opentab k) { o_file = some f } =
        update_self w.opentab k _ in
      Holds-bind (λ x t. Only (set_file k f w) t) _ (truncate_if (bit 9 mode) envid f) _
        (set_file k f w) (truncate_if-Only (bit 9 mode) envid f (set_file k f w))
        λ x t (o, d, c).
          let at : t.opentab k ≡ record (w.opentab k) { o_file = some f } =
            ap (λ z. z k) o ∙ here in
          filled-Handed P mode k f sent t (p f refl) l (ap (λ (z : Open). z.o_fileid) at ∙ q)
            (ap (λ (z : Open). z.o_file) at) (c ∙ g)

  open_in-Handed :
      (rq : Fsreq) (v : Server) (r : Result ℕ) (w : Server) (before : ℕ → ℕ)
      → Numbered v
      → Given before maxopen 0 v r w
      → Roomy v w
      → Holds (open_in envid rq r w) (λ _ t. Handed pageref envid (Opened rq v.fs) v.sent t)
  unfolding open_in
  open_in-Handed rq v (err e) w before num (x, f, (o, g)) m =
      answer-Handed (Opened rq v.fs) (err e) v.sent w g
  open_in-Handed rq v (ok k) w before num (lo, l, x, y, f, (o, g)) (n, m) =
      on_fs-at (find_or_create rq.mode rq.path) (open_at envid rq.mode k) _ w λ r u e.
        open_at-Handed (Opened rq v.fs) rq.mode k r v.sent (record w { fs = u })
          (λ f q. (
            n,
            u,
            subst (λ z. find_or_create rq.mode rq.path z ≡ done (r, u)) m e
                ∙ ap (λ z. done (z, u)) q,
          ))
          l (ap (λ h. (h k).o_fileid) o ∙ num k l) g

  -- If the entries of the table have their numbers, and `serve_open` does not stop, it sends one
  -- reply, to its caller. If that reply has a page, then at any time when the page is mapped twice at
  -- least, `open_lookup` accepts the number in it, and gives an entry whose page it is and whose file
  -- is the one that opening the request's path by its mode gave, on the file system as it was but for
  -- the room for pages; and the descriptor holds that file's entry word by word.
  pub serve_open-open_lookup :
      (before : ℕ → ℕ) (rq : Fsreq) (v : Server)
      → Numbered v
      → Holds (serve_open before envid rq v) (λ _ t. Handed pageref envid (Opened rq v.fs) v.sent t)
  unfolding serve_open
  serve_open-open_lookup before rq v num =
      Holds-bind (λ r t. Given before maxopen 0 v r t × Roomy v t) _ (open_alloc before)
        (open_in envid rq) v (Returns-Holds _ (open_alloc before v) (open_alloc-both before v))
        λ r t h. open_in-Handed rq v r t before num h.0 h.1

-- Entries `i` up to `i + count` have their numbers and pages, and those before are as they were.
Laid : ℕ → ℕ → Server → Server → Type 0
Laid count i v t =
    ((k : ℕ)
      → i ≤ k
      → k < i + count
      → ((t.opentab k).o_fileid ≡ k) × ((t.opentab k).o_ff ≡ fileva + k * 4096))
    × ((k : ℕ) → k < i → t.opentab k ≡ v.opentab k)

init_entry : ℕ → ℕ → Server → Server
init_entry i va v = record v {
  opentab = update v.opentab i (record (v.opentab i) { o_fileid = i; o_ff = va });
}

Laid-cons :
    (count i : ℕ) (v t : Server)
    → Laid count (i + 1) (init_entry i (fileva + i * 4096) v) t
    → Laid (suc count) i v t
unfolding Laid init_entry
Laid-cons count i v t (ids, before) = (
  λ k l h. elim (Bool-cases (i == k)) [
    | inl y ↦
        let e : i ≡ k = (==_iff i k).0 y in
        let at : t.opentab i ≡ record (v.opentab i) { o_fileid = i; o_ff = fileva + i * 4096 } =
          before i (omega arith) ∙ update_self v.opentab i _ in
        subst (λ c. ((t.opentab c).o_fileid ≡ c) × ((t.opentab c).o_ff ≡ fileva + c * 4096)) e
          (ap (λ (x : Open). x.o_fileid) at, ap (λ (x : Open). x.o_ff) at)
    | inr n ↦ ids k (ground (arith, n, l)) (omega (arith, h))
  ],
  λ k h. before k (omega (arith, h)) ∙ update_ne v.opentab i k _ (λ e. omega (arith, e, h)),
)

init_opens-Laid :
    (count i va : ℕ) (v : Server)
    → va ≡ fileva + i * 4096
    → i + count ≤ maxopen
    → Returns (init_opens count i va v) (λ _ t. Laid count i v t)
unfolding init_opens Laid init_entry
init_opens-Laid zero i va v e l = (λ k h g. absurd (omega (arith, h, g)), λ k h. refl)
init_opens-Laid (suc count) i va v e l =
    subst (λ x. Returns (init_opens (suc count) i x v) (λ _ t. Laid (suc count) i v t)) (sym e)
      (Returns-weaken _ _
        (init_opens count (i + 1) ((fileva + i * 4096 + 4096) % 2 ^ 32)
          (init_entry i (fileva + i * 4096) v))
        (init_opens-Laid count (i + 1) _ (init_entry i (fileva + i * 4096) v) (omega (arith, l))
          (omega (arith, l)))
        λ x t h. Laid-cons count i v t h)

pub serve_init-Numbered :
    (v : Server)
    → Returns
        (serve_init v)
        (λ _ t. Numbered t × ((k : ℕ) → k < maxopen → (t.opentab k).o_ff ≡ fileva + k * 4096))
unfolding serve_init Laid
serve_init-Numbered v =
    Returns-weaken _ _ (init_opens maxopen 0 fileva v)
      (init_opens-Laid maxopen 0 fileva v refl (omega arith))
      λ x t h. (λ k l. (h.0 k (omega arith) l).0, λ k l. (h.0 k (omega arith) l).1)
