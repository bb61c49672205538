-- ===== src/Pipe.antt =====
-- user/lib/pipe.c: the ring buffer between the writer and the reader of a pipe.
pub mod Order
pub mod Traffic
use os_challenge_sudo_shell.Base.{
  ℕ, zero, suc, ◌+◌, ◌-◌, ◌%◌, ◌^◌, ◌≡◌, refl, Bool, true, false, ◌||◌, List, [], ◌∷◌, ◌++◌, Option,
  none, some, ltb, leb, if◌then◌else◌, update,
}

abbrev pub pipe_size : ℕ
pipe_size = 32

pub record Pipe : Type 0 where
  pub p_rpos : ℕ
  pub p_wpos : ℕ
  pub p_buf : ℕ → ℕ

-- The body of the loop of pipe_write: `none` where the pipe is full. The difference of the positions is
-- that of 32-bit words.
pub put_byte : ℕ → Pipe → Option Pipe
put_byte c p =
    if leb pipe_size ((p.p_wpos + 2 ^ 32 - p.p_rpos) % 2 ^ 32)
    then none
    else some (record {
      p_rpos = p.p_rpos;
      p_wpos = (p.p_wpos + 1) % 2 ^ 32;
      p_buf = update p.p_buf (p.p_wpos % pipe_size) c;
    })

-- The body of the loop of pipe_read: `none` where the pipe is empty.
pub get_byte : Pipe → Option (ℕ × Pipe)
get_byte p =
    if leb p.p_wpos p.p_rpos
    then none
    else some (p.p_buf (p.p_rpos % pipe_size), record p { p_rpos = (p.p_rpos + 1) % 2 ^ 32 })

-- How a call goes: it returns, or gives up the processor and comes back to the rest.
pub data Turn : Type 0 where
  returned yielded : Turn

-- What the loop of pipe_read does with the answer for a byte, with the rest of the loop `on`. An empty
-- pipe ends the call if a byte has been read or the pipe is closed.
pub after_get :
    Bool → Pipe → (Pipe → Turn × (List ℕ × Pipe)) → Option (ℕ × Pipe) → Turn × (List ℕ × Pipe)
after_get over p on none = (if over then returned else yielded, ([], p))
after_get over p on (some (c, q)) = ((on q).0, (c ∷ (on q).1.0, (on q).1.1))

-- pipe_read of `n` bytes, up to the first yield; `any` says that a byte has been read, `closed` what
-- _pipe_is_closed answers. The bytes that were read come with the pipe.
pub read_on : ℕ → Bool → Bool → Pipe → Turn × (List ℕ × Pipe)
read_on zero any closed p = (returned, ([], p))
read_on (suc n) any closed p =
    after_get (any || closed) p (λ q. read_on n true closed q) (get_byte p)

-- What the loop of pipe_write does with the answer for a byte. A full pipe ends the call if it is closed.
pub after_put :
    Bool → List ℕ → Pipe → (Pipe → Turn × (List ℕ × Pipe)) → Option Pipe → Turn × (List ℕ × Pipe)
after_put closed cs p on none = (if closed then returned else yielded, (cs, p))
after_put closed cs p on (some q) = on q

-- pipe_write of the bytes, up to the first yield. The bytes that are left come with the pipe.
pub write_on : List ℕ → Bool → Pipe → Turn × (List ℕ × Pipe)
write_on [] closed p = (returned, ([], p))
write_on (c ∷ cs) closed p = after_put closed (c ∷ cs) p (λ q. write_on cs closed q) (put_byte c p)
