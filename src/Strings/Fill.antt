-- ===== src/Strings/Fill.antt =====
-- memset of lib/string.c against the fill of a range.
use os_challenge_sudo_shell.Base.{
  ℕ, zero, suc, ◌+◌, ◌%◌, ◌≤◌, ◌<◌, ◌≡◌, refl, ◌∙◌, not, ◌&&◌, ltb, leb, ◌==◌, if◌then◌else◌, arith,
  Bool-cases, inl, inr,
}
use os_challenge_sudo_shell.Strings.{
  Bytes, Filling, fill_byte, fill_word, fill_aligning, fill_words, fill_bytes, memset,
}

-- From `c` to `d` a first part of what is left has been filled.
pub record Filled (v : ℕ) (c d : Filling) : Type 0 where
  pub moved : ℕ
  pub dst : d.dst ≡ c.dst + moved
  pub left : d.left + moved ≡ c.left
  pub mem : (a : ℕ) → d.mem a ≡ (if leb c.dst a && ltb a (c.dst + moved) then v else c.mem a)

none_yet : (v : ℕ) (c : Filling) → Filled v c c
none_yet v c = record { moved = 0; dst = omega arith; left = omega arith; mem = λ a. ground arith }

Filled-trans : (v : ℕ) (c d e : Filling) → Filled v c d → Filled v d e → Filled v c e
Filled-trans v c d e f g = record {
  moved = f.moved + g.moved;
  dst = omega (arith, f.dst, g.dst);
  left = omega (arith, f.left, g.left);
  mem = λ a. g.mem a ∙ ground (arith, f.mem a, f.dst);
}

fill_byte-Filled : (v : ℕ) (c : Filling) → 0 < c.left → Filled v c (fill_byte v c)
fill_byte-Filled v c h = record {
  moved = 1;
  dst = refl;
  left = omega arith;
  mem = λ a. ground arith;
}

fill_word-Filled : (v : ℕ) (c : Filling) → 4 ≤ c.left → Filled v c (fill_word v c)
fill_word-Filled v c h = record { moved = 4; dst = refl; left = omega arith; mem = λ a. refl }

fill_aligning-Filled : (fuel v : ℕ) (c : Filling) → Filled v c (fill_aligning fuel v c)
unfolding fill_aligning
fill_aligning-Filled zero v c = none_yet v c
fill_aligning-Filled (suc fuel) v c = elim (Bool-cases (not (c.dst % 4 == 0) && ltb 0 c.left)) [
  | inl y ↦ rw y (
      Filled-trans v c (fill_byte v c) _ (fill_byte-Filled v c (ground arith))
        (fill_aligning-Filled fuel v (fill_byte v c)))
  | inr n ↦ rw n (none_yet v c)
]

fill_words-Filled : (fuel v : ℕ) (c : Filling) → Filled v c (fill_words fuel v c)
unfolding fill_words
fill_words-Filled zero v c = none_yet v c
fill_words-Filled (suc fuel) v c = elim (Bool-cases (leb 4 c.left)) [
  | inl y ↦ rw y (
      Filled-trans v c (fill_word v c) _ (fill_word-Filled v c (ground arith))
        (fill_words-Filled fuel v (fill_word v c)))
  | inr n ↦ rw n (none_yet v c)
]

-- The last loop, which has enough fuel to fill all.
fill_bytes-Filled :
    (fuel v : ℕ) (c : Filling)
    → c.left ≤ fuel
    → Filled v c (fill_bytes fuel v c) × ((fill_bytes fuel v c).left ≡ 0)
unfolding fill_bytes
fill_bytes-Filled zero v c h = (none_yet v c, omega arith)
fill_bytes-Filled (suc fuel) v c h = elim (Bool-cases (ltb 0 c.left)) [
  | inl y ↦
      let r = fill_bytes-Filled fuel v (fill_byte v c) (ground arith) in
      rw y (Filled-trans v c (fill_byte v c) _ (fill_byte-Filled v c (ground arith)) r.0, r.1)
  | inr n ↦ rw n (none_yet v c, ground arith)
]

Filled-all :
    (v : ℕ) (c d : Filling)
    → Filled v c d
    → d.left ≡ 0
    → (a : ℕ) → d.mem a ≡ (if leb c.dst a && ltb a (c.dst + c.left) then v else c.mem a)
Filled-all v c d f z a = let e : f.moved ≡ c.left = omega (arith, f.left) in rw (← e) (f.mem a)

-- `memset`, at any alignment, leaves in each byte of the range the low 8 bits of the given
-- character, and every other byte as it was.
pub memset-filled :
    (dst c n : ℕ) (m : Bytes) (a : ℕ)
    → memset dst c n m a ≡ (if leb dst a && ltb a (dst + n) then c % 256 else m a)
unfolding memset
memset-filled dst c n m a =
    let v : ℕ = c % 256 in
    let s : Filling = record { dst = dst; left = n; mem = m } in
    let t : Filling = fill_aligning n v s in
    let u : Filling = fill_words n v t in
    let f : Filled v s u =
      Filled-trans v s t u (fill_aligning-Filled n v s) (fill_words-Filled n v t) in
    let g = fill_bytes-Filled n v u (omega (arith, f.left)) in
    Filled-all v s (fill_bytes n v u) (Filled-trans v s u _ f g.0) g.1 a
