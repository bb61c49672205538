-- ===== src/Serve/Answers.antt =====
-- fs/serv.c: who is answered, and what a request leaves alone.
use os_challenge_sudo_shell.Base.{
  ℕ, zero, suc, ◌/◌, ◌≡◌, refl, ap, ◌∙◌, Bool, true, false, leb, not, ◌&&◌, if◌then◌else◌, Option,
  none, some, List, [], ◌∷◌, map, Exec, ◌>>=◌, Result, ok, err, Holds, Holds-bind, Holds-weaken,
  Holds-any, Bool-cases, inl, inr,
}
use os_challenge_sudo_shell.Fs.{Fs}
use os_challenge_sudo_shell.Files.{
  Place, file_get_block, file_set_size, file_close, file_dirty, fs_sync,
}
use os_challenge_sudo_shell.Memory.{is_valid}
use os_challenge_sudo_shell.Paths.{file_remove}
use os_challenge_sudo_shell.Serve.{
  Reply, Server, Fsreq, on_fs, answer, open_lookup, shared_perm, follow, with_entry, with_open,
  send_block, serve_map, serve_set_size, serve_close, serve_remove, serve_dirty, serve_sync,
  max_fsreqno, serve_table, Request, at_reqva, is_sent, serve_valid, serve_request, serve,
}
use os_challenge_sudo_shell.Serve.Kept.{
  Only, Kept, Answered, Served, on_fs-then, answer-Served, serve_open-Served,
}

module _ (pageref : ℕ → ℕ) (envid : ℕ) (v : Server) where
  -- A file system's operation whose result is answered
  asked :
      {A : Type 0} (m : Exec Fs A) (f : A → Exec Server (Unit {0}))
      → ((a : A) (t : Server) → Only v t → Holds (f a t) (λ _ u. Served pageref envid v u))
      → Holds ((on_fs m >>= f) v) (λ _ t. Served pageref envid v t)
  asked m f k = on_fs-then m (λ r. Unit {0}) f _ v (Holds-any _) λ a t z o. k a t o

  follow-Served :
      (p : Option Place) (k : Place → Exec Server (Unit {0}))
      → ((f : Place) → Holds (k f v) (λ _ t. Served pageref envid v t))
      → Holds (follow p k v) (λ _ t. Served pageref envid v t)
  unfolding follow
  follow-Served none k h = tt
  follow-Served (some f) k h = h f

  with_entry-Served :
      (k : Place → Exec Server (Unit {0})) (r : Result ℕ)
      → ((f : Place) → Holds (k f v) (λ _ t. Served pageref envid v t))
      → Holds (with_entry envid k r v) (λ _ t. Served pageref envid v t)
  unfolding with_entry
  with_entry-Served k (err e) h = answer-Served pageref envid v (err e) none 0 v (refl, refl, refl)
  with_entry-Served k (ok i) h = follow-Served (v.opentab i).o_file k h

  serve_table-Served :
      (req : ℕ) (rq : Fsreq)
      → Holds (serve_table req pageref envid rq v) (λ _ t. Served pageref envid v t)
  unfolding serve_table serve_map send_block serve_set_size serve_close serve_remove serve_dirty
      serve_sync with_open
  serve_table-Served zero rq = serve_open-Served pageref envid v rq
  serve_table-Served (suc zero) rq = with_entry-Served _ (open_lookup pageref rq.fileid v) λ f.
      asked (file_get_block f (rq.offset / 4096)) (send_block envid) (elim [
        | ok b ↦ λ t o. answer-Served pageref envid v (ok tt) _ shared_perm t o
        | err e ↦ λ t o. answer-Served pageref envid v (err e) none 0 t o
      ])
  serve_table-Served (suc (suc zero)) rq =
      with_entry-Served _ (open_lookup pageref rq.fileid v) λ f.
        asked (file_set_size f rq.offset) (answer envid)
          λ r t o. answer-Served pageref envid v r none 0 t o
  serve_table-Served (suc (suc (suc zero))) rq =
      with_entry-Served _ (open_lookup pageref rq.fileid v) λ f.
        asked (file_close f) (λ x. answer envid (ok tt))
          λ x t o. answer-Served pageref envid v (ok tt) none 0 t o
  serve_table-Served (suc (suc (suc (suc zero)))) rq =
      with_entry-Served _ (open_lookup pageref rq.fileid v) λ f.
        asked (file_dirty f rq.offset) (answer envid)
          λ r t o. answer-Served pageref envid v r none 0 t o
  serve_table-Served (suc (suc (suc (suc (suc zero))))) rq =
      asked (file_remove rq.path rq.mode) (answer envid)
        λ r t o. answer-Served pageref envid v r none 0 t o
  serve_table-Served (suc (suc (suc (suc (suc (suc zero)))))) rq =
      asked fs_sync (λ x. answer envid (ok tt))
        λ x t o. answer-Served pageref envid v (ok tt) none 0 t o
  serve_table-Served (suc (suc (suc (suc (suc (suc (suc n))))))) rq = tt

-- The request is one that the server answers: it has PTE_V and a valid number.
pub asks : Request → Bool
asks r = is_valid r.perm && not (leb max_fsreqno r.req)

abbrev pub Replied : Bool → ℕ → Server → Server → Type 0
Replied true envid v t = Answered envid v t
Replied false envid v t = t.sent ≡ v.sent

-- The outcome of one round of the loop
abbrev pub Turn : Request → Server → Server → Type 0
Turn r v t = Kept r.pageref v t × Replied (asks r) r.whom v t

Turn-same : (pageref : ℕ → ℕ) (v : Server) → Kept pageref v v
Turn-same pageref v = (λ j h. refl, λ a h. refl, λ j. refl, λ j. refl)

serve_valid-Turn :
    (r : Request) (v w : Server)
    → w ≡ record v { reqva = is_sent r.page }
    → Holds
        (serve_valid r w)
        (λ _ t. Kept r.pageref v t × Replied (not (leb max_fsreqno r.req)) r.whom v t)
unfolding serve_valid
serve_valid-Turn r v w e = elim (Bool-cases (leb max_fsreqno r.req)) [
  | inl y ↦ rw (e, y) (Turn-same r.pageref v, refl)
  | inr x ↦
      rw (e, x)
        (Holds-bind (λ _ t. Served r.pageref r.whom v t) _
          (serve_table r.req r.pageref r.whom (at_reqva r.page)) _
          (record v { reqva = is_sent r.page })
          (serve_table-Served r.pageref r.whom (record v { reqva = is_sent r.page }) r.req
            (at_reqva r.page))
          λ a t h. h)
]

-- If a round of the file server's loop does not stop: every entry of the table whose descriptor
-- page is mapped twice at least, and every such page, is as before; no entry changes its number or
-- its page's address. A request with PTE_V in its permissions, which the kernel sets with a page
-- and without one, and a number below MAX_FSREQNO sends exactly one reply, to its sender; any other
-- sends none.
pub serve_request-Turn : (r : Request) (v : Server) → Holds (serve_request r v) (λ _ t. Turn r v t)
unfolding serve_request asks
serve_request-Turn r v = elim (Bool-cases (is_valid r.perm)) [
  | inl y ↦ rw y (serve_valid-Turn r v (record v { reqva = is_sent r.page }) refl)
  | inr n ↦ rw n (Turn-same r.pageref v, refl)
]

-- The senders of the requests that are answered, the last one first, before others
pub askers : List Request → List ℕ → List ℕ
askers [] acc = acc
askers (r ∷ rs) acc = askers rs (if asks r then r.whom ∷ acc else acc)

abbrev pub addressees : Server → List ℕ
addressees v = map (λ (r : Reply). r.whom) v.sent

addressees-Replied :
    (b : Bool) (envid : ℕ) (v t : Server)
    → Replied b envid v t
    → addressees t ≡ (if b then envid ∷ addressees v else addressees v)
addressees-Replied true envid v t (r, e, g) =
    ap (map (λ (x : Reply). x.whom)) g ∙ ap (λ k. k ∷ addressees v) e
addressees-Replied false envid v t g = ap (map (λ (x : Reply). x.whom)) g

-- If the file server does not stop on a sequence of requests, the addressees of its replies are, in
-- order, the senders of the requests that have PTE_V in their permissions and a number below
-- MAX_FSREQNO, after those of the replies sent before.
pub serve-askers :
    (rs : List Request) (v : Server)
    → Holds (serve rs v) (λ _ t. addressees t ≡ askers rs (addressees v))
unfolding serve askers
serve-askers [] v = refl
serve-askers (r ∷ rs) v =
    Holds-bind (λ _ t. Turn r v t) _ (serve_request r) _ v (serve_request-Turn r v)
      λ x t h.
        Holds-weaken _ _ (serve rs t) (serve-askers rs t)
          λ y u g. g ∙ ap (askers rs) (addressees-Replied (asks r) r.whom v t h.1)
