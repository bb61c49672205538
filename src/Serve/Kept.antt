-- ===== src/Serve/Kept.antt =====
-- fs/serv.c: what serve_open leaves alone.
use os_challenge_sudo_shell.Base.{
  ℕ, ◌≤◌, ◌<◌, ◌≡◌, ◌≢◌, refl, sym, ap, ◌∙◌, Bool, true, false, ◌==◌, update, Option, none, some,
  ◌∷◌, Exec, Outcome, done, stop, ◌>>=◌, Result, ok, err, arith, subst, Holds, Holds-bind,
  Returns-Holds, Holds-any, Bool-cases, inl, inr, update_ne, update_self, ==→ne,
}
use os_challenge_sudo_shell.Base.Bitmap.{bit}
use os_challenge_sudo_shell.Fs.{Fs}
use os_challenge_sudo_shell.Files.{Place, word_at, field, file_set_size}
use os_challenge_sudo_shell.Files.Cached.{file_set_size-ok}
use os_challenge_sudo_shell.Serve.{
  Open, Filefd, Reply, Server, Fsreq, lift, on_fs, ipc_send, open_alloc, find_or_create, report,
  truncate_if, fill_filefd, set_file, open_at, open_in, serve_open, dev_file, shared_perm, maxopen,
  blank,
}
use os_challenge_sudo_shell.Serve.Opens.{Given, open_alloc-Given}

pub ipc_send-Holds {ℓ} :
    (envid : ℕ) (r : Result (Unit {0})) (p : Option ℕ) (perm : ℕ) (v : Server)
    (Q : Unit {0} → Server → Type ℓ)
    → Q tt (record v { sent = record { whom = envid; value = r; page = p; perm = perm } ∷ v.sent })
    → Holds (ipc_send envid r p perm v) Q
unfolding ipc_send
ipc_send-Holds envid r p perm v Q h = elim (Bool-cases (v.refused v.sent envid)) [
  | inl y ↦ rw y tt
  | inr n ↦ rw n h
]

-- Just the file system has changed.
abbrev pub Only : Server → Server → Type 0
Only v t = (t.opentab ≡ v.opentab) × (t.filefd ≡ v.filefd) × (t.sent ≡ v.sent)

lift-Only :
    {A : Type 0} (P : A → Type 0) (o : Outcome (A × Fs)) (v : Server)
    → Holds o (λ a t. P a)
    → Holds (lift o v) (λ a t. P a × Only v t)
unfolding lift
lift-Only P (done (a, t)) v h = (h, (refl, refl, refl))
lift-Only P (stop w) v h = tt

pub on_fs-then {ℓ} :
    {A B : Type 0} (m : Exec Fs A) (P : A → Type 0) (f : A → Exec Server B)
    (Q : B → Server → Type ℓ) (v : Server)
    → Holds (m v.fs) (λ a t. P a)
    → ((a : A) (t : Server) → P a → Only v t → Holds (f a t) Q)
    → Holds ((on_fs m >>= f) v) Q
unfolding on_fs
on_fs-then m P f Q v h k =
    Holds-bind (λ a t. P a × Only v t) Q (on_fs m) f v (lift-Only P (m v.fs) v h)
      λ a t g. k a t g.0 g.1

lift-at :
    {A : Type 0} (o : Outcome (A × Fs)) (v : Server)
    → Holds
        (lift o v)
        (λ a t. (u : Fs) × (◌≡◌ {A = Outcome (A × Fs)} o (done (a, u))) × (t ≡ record v { fs = u }))
unfolding lift
lift-at (done (a, t)) v = (t, refl, refl)
lift-at (stop w) v = tt

-- What follows a file system's operation, on the result that the operation has
pub on_fs-at {ℓ} :
    {A B : Type 0} (m : Exec Fs A) (f : A → Exec Server B) (Q : B → Server → Type ℓ) (v : Server)
    → ((a : A) (u : Fs) → m v.fs ≡ done (a, u) → Holds (f a (record v { fs = u })) Q)
    → Holds ((on_fs m >>= f) v) Q
unfolding on_fs
on_fs-at {A} m f Q v k =
    Holds-bind
      (λ a t.
        (u : Fs) × (◌≡◌ {A = Outcome (A × Fs)} (m v.fs) (done (a, u))) × (t ≡ record v { fs = u }))
      Q (on_fs m) f v (lift-at (m v.fs) v)
      λ a t (u, e, q). subst (λ z. Holds (f a z) Q) (sym q) (k a u e)

-- What a client has open: the entry and the descriptor of every page that is mapped twice at least. They
-- are as before, and the numbers and addresses of all entries too.
abbrev pub Kept : (ℕ → ℕ) → Server → Server → Type 0
Kept pageref v t =
    ((j : ℕ) → 1 < pageref (v.opentab j).o_ff → t.opentab j ≡ v.opentab j)
    × ((a : ℕ) → 1 < pageref a → t.filefd a ≡ v.filefd a)
    × ((j : ℕ) → (t.opentab j).o_ff ≡ (v.opentab j).o_ff)
    × ((j : ℕ) → (t.opentab j).o_fileid ≡ (v.opentab j).o_fileid)

-- One reply has been sent, and it went to the environment.
abbrev pub Answered : ℕ → Server → Server → Type 0
Answered envid v t = (r : Reply) × (r.whom ≡ envid) × (t.sent ≡ r ∷ v.sent)

abbrev pub Served : (ℕ → ℕ) → ℕ → Server → Server → Type 0
Served pageref envid v t = Kept pageref v t × Answered envid v t

-- Just entry `k` and its page have changed, but not its number or its page's address.
Touched : ℕ → Server → Server → Type 0
Touched k v t =
    ((j : ℕ) → j ≢ k → t.opentab j ≡ v.opentab j)
    × ((a : ℕ) → a ≢ (v.opentab k).o_ff → t.filefd a ≡ v.filefd a)
    × ((t.opentab k).o_ff ≡ (v.opentab k).o_ff)
    × ((t.opentab k).o_fileid ≡ (v.opentab k).o_fileid)

pub truncate_if-Only :
    (b : Bool) (envid : ℕ) (f : Place) (w : Server)
    → Holds (truncate_if b envid f w) (λ _ t. Only w t)
unfolding truncate_if report
truncate_if-Only false envid f w = (refl, refl, refl)
truncate_if-Only true envid f w =
    on_fs-then (file_set_size f 0) (λ r. r ≡ ok tt) (report envid) _ w (file_set_size-ok f 0 w.fs)
      (elim [ ok x ↦ λ t z o. o | err e ↦ λ t z o. absurd (ground (arith, z)) ])

module _ (pageref : ℕ → ℕ) (envid : ℕ) (v : Server) where
  pub answer-Served :
      (r : Result (Unit {0})) (p : Option ℕ) (perm : ℕ) (w : Server)
      → Only v w
      → Holds (ipc_send envid r p perm w) (λ _ t. Served pageref envid v t)
  answer-Served r p perm w (e, f, g) = ipc_send-Holds envid r p perm w _ (
    (
      λ j h. ap (λ x. x j) e,
      λ a h. ap (λ x. x a) f,
      λ j. ap (λ x. (x j).o_ff) e,
      λ j. ap (λ x. (x j).o_fileid) e,
    ),
    (
      record { whom = envid; value = r; page = p; perm = perm },
      refl,
      λ i. record { whom = envid; value = r; page = p; perm = perm } ∷ g i,
    ),
  )

  Touched-Kept :
      (k : ℕ) (t : Server) → pageref (v.opentab k).o_ff ≤ 1 → Touched k v t → Kept pageref v t
  unfolding Touched
  Touched-Kept k t l (o, f, x, y) = (
    λ j h. o j (λ e. omega (arith, l, subst (λ c. 1 < pageref (v.opentab c).o_ff) e h)),
    λ a h. f a (λ e. omega (arith, l, subst (λ c. 1 < pageref c) e h)),
    λ j. elim (Bool-cases (j == k)) [
      | inl z ↦
          let e : k ≡ j = ground (arith, z) in
          subst (λ c. (t.opentab c).o_ff ≡ (v.opentab c).o_ff) e x
      | inr n ↦ ap (λ (q : Open). q.o_ff) (o j (==→ne j k n))
    ],
    λ j. elim (Bool-cases (j == k)) [
      | inl z ↦
          let e : k ≡ j = ground (arith, z) in
          subst (λ c. (t.opentab c).o_fileid ≡ (v.opentab c).o_fileid) e y
      | inr n ↦ ap (λ (q : Open). q.o_fileid) (o j (==→ne j k n))
    ],
  )

  -- Entry `k` is being filled, and nothing is sent yet.
  Working : ℕ → Server → Type 0
  Working k w = Touched k v w × (w.sent ≡ v.sent)

  send-Served :
      (k : ℕ) (r : Result (Unit {0})) (p : Option ℕ) (perm : ℕ) (w : Server)
      → pageref (v.opentab k).o_ff ≤ 1
      → Working k w
      → Holds (ipc_send envid r p perm w) (λ _ t. Served pageref envid v t)
  unfolding Working Touched
  send-Served k r p perm w l (h, g) = ipc_send-Holds envid r p perm w _ (
    Touched-Kept k
        (record w { sent = record { whom = envid; value = r; page = p; perm = perm } ∷ w.sent }) l
        h,
    (
      record { whom = envid; value = r; page = p; perm = perm },
      refl,
      λ i. record { whom = envid; value = r; page = p; perm = perm } ∷ g i,
    ),
  )

  Working-Only : (k : ℕ) (w t : Server) → Working k w → Only w t → Working k t
  unfolding Working Touched
  Working-Only k w t ((o, f, x, y), g) (e, d, c) = (
    (
      λ j n. ap (λ z. z j) e ∙ o j n,
      λ a n. ap (λ z. z a) d ∙ f a n,
      ap (λ z. (z k).o_ff) e ∙ x,
      ap (λ z. (z k).o_fileid) e ∙ y,
    ),
    c ∙ g,
  )

  -- A store to entry `k` that keeps its number and address
  Working-entry :
      (k : ℕ) (w : Server) (q : Open)
      → q.o_ff ≡ (w.opentab k).o_ff
      → q.o_fileid ≡ (w.opentab k).o_fileid
      → Working k w
      → Working k (record w { opentab = update w.opentab k q })
  unfolding Working Touched
  Working-entry k w q a b ((o, f, x, y), g) = (
    (
      λ j n. update_ne w.opentab k j q (λ e. n (sym e)) ∙ o j n,
      f,
      ap (λ (z : Open). z.o_ff) (update_self w.opentab k q) ∙ (a ∙ x),
      ap (λ (z : Open). z.o_fileid) (update_self w.opentab k q) ∙ (b ∙ y),
    ),
    g,
  )

  -- A store to its page
  Working-page :
      (k : ℕ) (w : Server) (q : Filefd)
      → Working k w
      → Working k (record w { filefd = update w.filefd (w.opentab k).o_ff q })
  unfolding Working Touched
  Working-page k w q ((o, f, x, y), g) =
      ((o, λ a n. update_ne w.filefd (w.opentab k).o_ff a q (λ e. n (sym e ∙ x)) ∙ f a n, x, y), g)

  open_at-Served :
      (mode k : ℕ) (r : Result Place) (w : Server)
      → pageref (v.opentab k).o_ff ≤ 1
      → Working k w
      → Holds (open_at envid mode k r w) (λ _ t. Served pageref envid v t)
  unfolding open_at fill_filefd set_file
  open_at-Served mode k (err e) w l h = send-Served k (err e) none 0 w l h
  open_at-Served mode k (ok f) w l h =
      Holds-bind (λ x t. Only (set_file k f w) t) _ (truncate_if (bit 9 mode) envid f) _
        (set_file k f w) (truncate_if-Only (bit 9 mode) envid f (set_file k f w))
        λ x t o.
          let g : Working k t =
            Working-Only k (set_file k f w) t
              (Working-entry k w (record (w.opentab k) { o_file = some f }) refl refl h) o in
          let q : Filefd = record (t.filefd (t.opentab k).o_ff) {
            fd_dev_id = dev_file;
            fd_omode = mode;
            f_fileid = (t.opentab k).o_fileid;
            f_file = λ j. word_at (field j f) t.fs;
          } in
          send-Served k (ok tt) _ shared_perm (fill_filefd mode k f t) l (
            Working-entry k (record t { filefd = update t.filefd (t.opentab k).o_ff q })
              (record (t.opentab k) { o_mode = mode }) refl refl (Working-page k t q g))

  Given-Working : (k : ℕ) (t : Server) → Given pageref maxopen 0 v (ok k) t → Working k t
  unfolding Working Touched
  Given-Working k t (lo, hi, l, past, f, (e, g)) = (
    (
      λ j n. ap (λ z. z j) e,
      λ a n. ap (λ z. z a) f ∙ update_ne v.filefd (v.opentab k).o_ff a blank (λ y. n (sym y)),
      ap (λ z. (z k).o_ff) e,
      ap (λ z. (z k).o_fileid) e,
    ),
    g,
  )

  open_in-Served :
      (rq : Fsreq) (r : Result ℕ) (w : Server)
      → Given pageref maxopen 0 v r w
      → Holds (open_in envid rq r w) (λ _ t. Served pageref envid v t)
  unfolding open_in
  open_in-Served rq (err e) w (x, f, (o, g)) = answer-Served (err e) none 0 w (o, f, g)
  open_in-Served rq (ok k) w h =
      on_fs-then (find_or_create rq.mode rq.path) (λ r. Unit {0}) (open_at envid rq.mode k) _ w
        (Holds-any _)
        λ r t z o. open_at-Served rq.mode k r t h.2 (Working-Only k w t (Given-Working k w h) o)

  pub serve_open-Served :
      (rq : Fsreq) → Holds (serve_open pageref envid rq v) (λ _ t. Served pageref envid v t)
  unfolding serve_open
  serve_open-Served rq =
      Holds-bind (Given pageref maxopen 0 v) _ (open_alloc pageref) (open_in envid rq) v
        (Returns-Holds _ (open_alloc pageref v) (open_alloc-Given pageref v))
        λ r t h. open_in-Served rq r t h
