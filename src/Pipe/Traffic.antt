-- ===== src/Pipe/Traffic.antt =====
-- The calls of user/lib/pipe.c on a pipe, and a writer and a reader that take turns.
use os_challenge_sudo_shell.Base.{
  ℕ, zero, suc, ◌+◌, ◌^◌, ◌≤◌, ◌<◌, ◌≡◌, refl, sym, ap, ◌∙◌, Bool, true, false, ◌||◌, List, [], ◌∷◌,
  ◌++◌, Option, none, some, if◌then◌else◌, arith, inl, inr, length, length-append, ◌⊎◌,
}
use mathlib.Core.List.{append_assoc}
use os_challenge_sudo_shell.Pipe.{
  Pipe, Turn, returned, yielded, put_byte, get_byte, after_get, read_on, after_put, write_on,
}
use os_challenge_sudo_shell.Pipe.Order.{contents, InOrder, Put, Got, put_byte-Put, get_byte-Got}

-- What a call of pipe_write does until it returns or yields: a first part of its bytes is written, in order.
-- It stops short only on a full pipe, and returns then only if that is closed.
pub record Written (cs : List ℕ) (closed : Bool) (p : Pipe) (r : Turn × (List ℕ × Pipe))
    : Type 0 where
  pub sent : List ℕ
  pub split : sent ++ r.1.0 ≡ cs
  pub bytes : contents r.1.1 ≡ contents p ++ sent
  pub inv : InOrder r.1.1
  pub far : r.1.1.p_wpos ≡ p.p_wpos + length sent
  pub turn :
      ((r.0 ≡ returned) × (r.1.0 ≡ []))
      ⊎ ((r.0 ≡ (if closed then returned else yielded)) × (r.1.1.p_wpos ≡ r.1.1.p_rpos + 32))

append_nil : (l : List ℕ) → l ++ [] ≡ l
append_nil [] = refl
append_nil (x ∷ l) = ap (λ t. x ∷ t) (append_nil l)

after_put-Written :
    (c : ℕ) (cs : List ℕ) (closed : Bool) (p : Pipe) (on : Pipe → Turn × (List ℕ × Pipe))
    (o : Option Pipe)
    → InOrder p
    → Put c p o
    → ((q : Pipe) → InOrder q → q.p_wpos ≡ p.p_wpos + 1 → Written cs closed q (on q))
    → Written (c ∷ cs) closed p (after_put closed (c ∷ cs) p on o)
unfolding after_put
after_put-Written c cs closed p on none v h f = record {
  sent = [];
  split = refl;
  bytes = sym (append_nil (contents p));
  inv = v;
  far = omega arith;
  turn = inr (refl, h);
}
after_put-Written c cs closed p on (some q) v h f =
    let w : Written cs closed q (on q) = f q h.1 h.2 in
    record {
      sent = c ∷ w.sent;
      split = ap (λ l. c ∷ l) w.split;
      bytes = w.bytes ∙ (ap (λ l. l ++ w.sent) h.0 ∙ append_assoc (contents p) (c ∷ []) w.sent);
      inv = w.inv;
      far = omega (arith, w.far, h.2);
      turn = w.turn;
    }

-- On a pipe whose positions are in order, at most 32 bytes apart, and do not wrap for the bytes to
-- write, `pipe_write` up to its return or yield appends a first part of its bytes to what is in the
-- pipe and is left with the others, and the positions are still so. It returns with none left, or
-- stops at a full pipe, where it returns if the pipe is closed and else yields.
pub write_on-Written :
    (cs : List ℕ) (closed : Bool) (p : Pipe)
    → InOrder p
    → p.p_wpos + length cs < 2 ^ 32
    → Written cs closed p (write_on cs closed p)
unfolding write_on
write_on-Written [] closed p v h = record {
  sent = [];
  split = refl;
  bytes = sym (append_nil (contents p));
  inv = v;
  far = omega arith;
  turn = inl (refl, refl);
}
write_on-Written (c ∷ cs) closed p v h =
    after_put-Written c cs closed p (λ q. write_on cs closed q) (put_byte c p) v
      (put_byte-Put c p v (omega (arith, h)))
      λ q w e. write_on-Written cs closed q w (omega (arith, h, e))

-- What a call of pipe_read of `n` bytes does until it returns or yields: the first bytes of the pipe are
-- read, in order. It stops short only on an empty pipe, and yields then only if it has read nothing and the
-- pipe is not closed.
pub record Taken (n : ℕ) (any closed : Bool) (p : Pipe) (r : Turn × (List ℕ × Pipe)) : Type 0 where
  pub bytes : r.1.0 ++ contents r.1.1 ≡ contents p
  pub inv : InOrder r.1.1
  pub most : length r.1.0 ≤ n
  pub last : r.1.1.p_wpos ≡ p.p_wpos
  pub turn : ((r.0 ≡ returned) × (length r.1.0 ≡ n)) ⊎ (contents r.1.1 ≡ [])
  pub yields : r.0 ≡ yielded → (r.1.0 ≡ []) × (any ≡ false) × (closed ≡ false)

not_over : (b : Bool) → (if b then returned else yielded) ≡ yielded → b ≡ false
not_over true e = absurd (cc)
not_over false e = refl

none_of : (a b : Bool) → (a || b) ≡ false → (a ≡ false) × (b ≡ false)
none_of true b e = absurd (cc)
none_of false b e = (refl, e)

after_get-Taken :
    (n : ℕ) (any closed : Bool) (p : Pipe) (on : Pipe → Turn × (List ℕ × Pipe))
    (o : Option (ℕ × Pipe))
    → InOrder p
    → Got p o
    → ((q : Pipe) → InOrder q → Taken n true closed q (on q))
    → Taken (suc n) any closed p (after_get (any || closed) p on o)
unfolding after_get
after_get-Taken n any closed p on none v h f = record {
  bytes = refl;
  inv = v;
  most = omega arith;
  last = refl;
  turn = inr h;
  yields = λ e. let k = none_of any closed (not_over (any || closed) e) in (refl, k.0, k.1);
}
after_get-Taken n any closed p on (some (c, q)) v h f =
    let w : Taken n true closed q (on q) = f q h.1 in
    record {
      bytes = ap (λ l. c ∷ l) w.bytes ∙ sym h.0;
      inv = w.inv;
      most = omega (arith, w.most);
      last = w.last ∙ h.2;
      turn = elim w.turn [ inl x ↦ inl (x.0, omega (arith, x.1)) | inr x ↦ inr x ];
      yields = λ e. absurd (ground (arith, w.yields e));
    }

-- On a pipe whose positions are in order, at most 32 bytes apart, and have not wrapped, `pipe_read`
-- up to its return or yield takes at most `n` of the first bytes of the pipe, in order, and the
-- positions are still so. It returns `n` bytes or leaves the pipe empty, and yields only if it has
-- read nothing and the pipe is not closed.
pub read_on-Taken :
    (n : ℕ) (any closed : Bool) (p : Pipe)
    → InOrder p
    → Taken n any closed p (read_on n any closed p)
unfolding read_on
read_on-Taken zero any closed p v = record {
  bytes = refl;
  inv = v;
  most = omega arith;
  last = refl;
  turn = inl (refl, refl);
  yields = λ e. absurd (cc);
}
read_on-Taken (suc n) any closed p v =
    after_get-Taken n any closed p (λ q. read_on n true closed q) (get_byte p) v (get_byte-Got p v)
      λ q w. read_on-Taken n true closed q w

-- A writer with the bytes that it has yet to write, a reader with those that it has read, and the pipe.
pub record Wire : Type 0 where
  pub to_write : List ℕ
  pub got : List ℕ
  pub pipe : Pipe

-- A turn of the one or the other.
pub data Step : Wire → Wire → Type 0 where
  writes :
      (w : Wire) (closed : Bool)
      → Step w (record w {
        to_write = (write_on w.to_write closed w.pipe).1.0;
        pipe = (write_on w.to_write closed w.pipe).1.1;
      })
  reads :
      (w : Wire) (n : ℕ) (any closed : Bool)
      → Step w (record w {
        got = w.got ++ (read_on n any closed w.pipe).1.0;
        pipe = (read_on n any closed w.pipe).1.1;
      })

pub data Run : Wire → Wire → Type 0 where
  rest : (w : Wire) → Run w w
  more : (w x y : Wire) → Run w x → Step x y → Run w y

-- All the bytes, in the order in which the reader gets them.
abbrev pub stream : Wire → List ℕ
stream w = w.got ++ (contents w.pipe ++ w.to_write)

abbrev pub Sane : Wire → Type 0
Sane w = InOrder w.pipe × (w.pipe.p_wpos + length w.to_write < 2 ^ 32)

Step-stream : (w x : Wire) → Step w x → Sane w → (stream x ≡ stream w) × Sane x
Step-stream w x (writes w' closed) (v, h) =
    let o : Turn × (List ℕ × Pipe) = write_on w'.to_write closed w'.pipe in
    let r : Written w'.to_write closed w'.pipe o =
      write_on-Written w'.to_write closed w'.pipe v h in
    let e : contents o.1.1 ++ o.1.0 ≡ contents w'.pipe ++ w'.to_write =
      ap (λ l. l ++ o.1.0) r.bytes
      ∙ (append_assoc (contents w'.pipe) r.sent o.1.0 ∙ ap (λ l. contents w'.pipe ++ l) r.split) in
    let k : length r.sent + length o.1.0 ≡ length w'.to_write =
      sym (length-append r.sent o.1.0) ∙ ap length r.split in
    (ap (λ l. w'.got ++ l) e, (r.inv, omega (arith, h, r.far, k)))
Step-stream w x (reads w' n any closed) (v, h) =
    let o : Turn × (List ℕ × Pipe) = read_on n any closed w'.pipe in
    let r : Taken n any closed w'.pipe o = read_on-Taken n any closed w'.pipe v in
    let e : o.1.0 ++ (contents o.1.1 ++ w'.to_write) ≡ contents w'.pipe ++ w'.to_write =
      sym (append_assoc o.1.0 (contents o.1.1) w'.to_write) ∙ ap (λ l. l ++ w'.to_write) r.bytes in
    (
      append_assoc w'.got o.1.0 (contents o.1.1 ++ w'.to_write) ∙ ap (λ l. w'.got ++ l) e,
      (r.inv, omega (arith, h, r.last)),
    )

-- For one writer and one reader of a pipe whose positions are in order, at most 32 bytes apart, and
-- do not wrap for the bytes to write: after any sequence of their calls, each up to its return or
-- yield, the bytes that have been read, those in the pipe and those still to be written are
-- together the same bytes in the same order as before, and the positions are still so.
pub Run-stream : (w x : Wire) → Run w x → Sane w → (stream x ≡ stream w) × Sane x
Run-stream w x (rest _) s = (refl, s)
Run-stream w x (more _ y _ r t) s =
    let a = Run-stream w y r s in let b = Step-stream y x t a.1 in (b.0 ∙ a.0, b.1)
