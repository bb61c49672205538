-- ===== src/Pipe/Order.antt =====
-- The bytes in a pipe of user/lib/pipe.c, and what one byte written or read does to them.
use os_challenge_sudo_shell.Base.{
  ℕ, zero, suc, ◌+◌, ◌-◌, ◌%◌, ◌^◌, ◌≤◌, ◌<◌, ◌≡◌, refl, ap, List, [], ◌∷◌, ◌++◌, Option, none,
  some, leb, update, arith, Bool-cases, inl, inr, subst,
}
use os_challenge_sudo_shell.Pipe.{Pipe, put_byte, get_byte}

-- The `n` bytes of the buffer from a position on, round the ring.
pub bytes_from : ℕ → ℕ → (ℕ → ℕ) → List ℕ
bytes_from zero r b = []
bytes_from (suc n) r b = b (r % 32) ∷ bytes_from n (r + 1) b

-- What has been written and not been read.
abbrev pub contents : Pipe → List ℕ
contents p = bytes_from (p.p_wpos - p.p_rpos) p.p_rpos p.p_buf

-- The positions are in order, at most 32 bytes apart, and have not wrapped.
pub record InOrder (p : Pipe) : Type 0 where
  pub order : p.p_rpos ≤ p.p_wpos
  pub few : p.p_wpos ≤ p.p_rpos + 32
  pub small : p.p_wpos < 2 ^ 32

-- A byte that is written past the `n` of a pipe that is not full comes last.
bytes_from-snoc :
    (n r c : ℕ) (b : ℕ → ℕ)
    → n < 32
    → bytes_from (suc n) r (update b ((r + n) % 32) c) ≡ bytes_from n r b ++ c ∷ []
unfolding bytes_from
bytes_from-snoc zero r c b h = let e : r + 0 ≡ r = omega arith in rw e (ground arith)
bytes_from-snoc (suc n) r c b h =
    let e : r + suc n ≡ (r + 1) + n = omega arith in
    let f : update b ((r + suc n) % 32) c (r % 32) ≡ b (r % 32) = ground arith in
    rw (f, e) (ap (λ l. b (r % 32) ∷ l) (bytes_from-snoc n (r + 1) c b (omega arith)))

-- The outcomes of one byte.
abbrev pub Put : ℕ → Pipe → Option Pipe → Type 0
Put c p none = p.p_wpos ≡ p.p_rpos + 32
Put c p (some q) = (contents q ≡ contents p ++ c ∷ []) × InOrder q × (q.p_wpos ≡ p.p_wpos + 1)

pub put_byte-Put : (c : ℕ) (p : Pipe) → InOrder p → p.p_wpos + 1 < 2 ^ 32 → Put c p (put_byte c p)
unfolding put_byte
put_byte-Put c p v h = elim (Bool-cases (leb 32 ((p.p_wpos + 2 ^ 32 - p.p_rpos) % 2 ^ 32))) [
  | inl y ↦ rw y (ground (arith, v.order, v.few, v.small))
  | inr n ↦
      let lt : p.p_wpos - p.p_rpos < 32 = ground (arith, v.order, v.few, v.small) in
      let e : (p.p_wpos + 1) % 2 ^ 32 ≡ p.p_wpos + 1 = omega (arith, h) in
      let w : p.p_rpos + (p.p_wpos - p.p_rpos) ≡ p.p_wpos = omega (arith, v.order) in
      let k : p.p_wpos + 1 - p.p_rpos ≡ suc (p.p_wpos - p.p_rpos) = omega (arith, v.order) in
      rw (n, e, k)
        (
          subst
              (λ i.
                bytes_from (suc (p.p_wpos - p.p_rpos)) p.p_rpos (update p.p_buf (i % 32) c)
                ≡ contents p ++ c ∷ [])
              w (bytes_from-snoc (p.p_wpos - p.p_rpos) p.p_rpos c p.p_buf lt),
          record { order = omega (arith, v.order); few = omega (arith, lt, v.order); small = h },
          refl,
        )
]

abbrev pub Got : Pipe → Option (ℕ × Pipe) → Type 0
Got p none = contents p ≡ []
Got p (some (c, q)) = (contents p ≡ c ∷ contents q) × InOrder q × (q.p_wpos ≡ p.p_wpos)

pub get_byte-Got : (p : Pipe) → InOrder p → Got p (get_byte p)
unfolding get_byte bytes_from
get_byte-Got p v = elim (Bool-cases (leb p.p_wpos p.p_rpos)) [
  | inl y ↦ let e : p.p_wpos - p.p_rpos ≡ 0 = ground arith in rw (y, e) refl
  | inr n ↦
      let e : p.p_wpos - p.p_rpos ≡ suc (p.p_wpos - (p.p_rpos + 1)) = ground arith in
      let m : (p.p_rpos + 1) % 2 ^ 32 ≡ p.p_rpos + 1 = ground (arith, v.small) in
      rw (n, m, e)
        (refl, record { order = ground arith; few = omega (arith, v.few); small = v.small }, refl)
]
