-- ===== src/Strings/Copy.antt =====
-- memcpy of lib/string.c against the copy of a range.
use os_challenge_sudo_shell.Base.{
  ℕ, zero, suc, ◌+◌, ◌-◌, ◌%◌, ◌≤◌, ◌<◌, ◌≡◌, refl, ap, ◌∙◌, not, ◌&&◌, ltb, leb, ◌==◌,
  if◌then◌else◌, arith, Bool-cases, inl, inr, ◌⊎◌,
}
use os_challenge_sudo_shell.Strings.{
  Bytes, Copying, copy_byte, copy_word, copy_aligning, copy_words, copy_bytes, memcpy,
}

-- The ranges that are left do not overlap.
abbrev pub Separate : ℕ → ℕ → ℕ → Type 0
Separate dst src n = (dst + n ≤ src) ⊎ (src + n ≤ dst)

-- From `c` on, the copy is on its way to the copy of all that is left in `c`.
pub record Reaches (c d : Copying) : Type 0 where
  pub moved : ℕ
  pub dst : d.dst ≡ c.dst + moved
  pub src : d.src ≡ c.src + moved
  pub left : d.left + moved ≡ c.left
  pub mem :
      (a : ℕ)
      → d.mem a
        ≡ (if leb c.dst a && ltb a (c.dst + moved) then c.mem (c.src + (a - c.dst)) else c.mem a)

none_yet : (c : Copying) → Reaches c c
none_yet c = record {
  moved = 0;
  dst = omega arith;
  src = omega arith;
  left = omega arith;
  mem = λ a. ground arith;
}

module _ (c d : Copying) (s : Separate c.dst c.src c.left) (f : Reaches c d) where
  -- A byte of the source that is still to be copied has not been written.
  source :
      (a : ℕ)
      → d.dst ≤ a
      → a < d.dst + d.left
      → d.mem (d.src + (a - d.dst)) ≡ c.mem (c.src + (a - c.dst))
  source a h k =
      let e : d.src + (a - d.dst) ≡ c.src + (a - c.dst) = omega (arith, f.dst, f.src) in
      ap d.mem e ∙ (f.mem (c.src + (a - c.dst)) ∙ ground (arith, s, f.dst, f.src, f.left))

  pub Reaches-trans : (e : Copying) → Reaches d e → Reaches c e
  Reaches-trans e g = record {
    moved = f.moved + g.moved;
    dst = omega (arith, f.dst, g.dst);
    src = omega (arith, f.src, g.src);
    left = omega (arith, f.left, g.left);
    mem = λ a. g.mem a ∙ elim (Bool-cases (leb d.dst a && ltb a (d.dst + g.moved))) [
      | inl y ↦ rw y (source a (ground arith) (ground (arith, g.left)) ∙ ground (arith, f.dst))
      | inr n ↦ rw n (f.mem a ∙ ground (arith, f.dst))
    ];
  }

Separate-after :
    (c d : Copying) → Reaches c d → Separate c.dst c.src c.left → Separate d.dst d.src d.left
Separate-after c d f (inl h) = inl (omega (arith, f.dst, f.src, f.left))
Separate-after c d f (inr h) = inr (omega (arith, f.dst, f.src, f.left))

copy_byte-Reaches : (c : Copying) → 0 < c.left → Reaches c (copy_byte c)
copy_byte-Reaches c h = record {
  moved = 1;
  dst = refl;
  src = refl;
  left = omega arith;
  mem = λ a. elim (Bool-cases (c.dst == a)) [
    | inl y ↦ let e : c.src + (a - c.dst) ≡ c.src = ground arith in rw e (ground arith)
    | inr n ↦ ground arith
  ];
}

copy_word-Reaches : (c : Copying) → 4 ≤ c.left → Reaches c (copy_word c)
copy_word-Reaches c h = record {
  moved = 4;
  dst = refl;
  src = refl;
  left = omega arith;
  mem = λ a. refl;
}

-- A round of a loop and the rest of it.
after :
    (c d e : Copying)
    → Separate c.dst c.src c.left
    → Reaches c d
    → (Separate d.dst d.src d.left → Reaches d e)
    → Reaches c e
after c d e s f g = Reaches-trans c d s f e (g (Separate-after c d f s))

copy_aligning-Reaches :
    (fuel : ℕ) (c : Copying) → Separate c.dst c.src c.left → Reaches c (copy_aligning fuel c)
unfolding copy_aligning
copy_aligning-Reaches zero c s = none_yet c
copy_aligning-Reaches (suc fuel) c s = elim (Bool-cases (not (c.dst % 4 == 0) && ltb 0 c.left)) [
  | inl y ↦ rw y (
      after c (copy_byte c) _ s (copy_byte-Reaches c (ground arith))
        (copy_aligning-Reaches fuel (copy_byte c)))
  | inr n ↦ rw n (none_yet c)
]

copy_words-Reaches :
    (fuel : ℕ) (c : Copying) → Separate c.dst c.src c.left → Reaches c (copy_words fuel c)
unfolding copy_words
copy_words-Reaches zero c s = none_yet c
copy_words-Reaches (suc fuel) c s = elim (Bool-cases (leb 4 c.left)) [
  | inl y ↦ rw y (
      after c (copy_word c) _ s (copy_word-Reaches c (ground arith))
        (copy_words-Reaches fuel (copy_word c)))
  | inr n ↦ rw n (none_yet c)
]

copy_bytes-Reaches :
    (fuel : ℕ) (c : Copying) → Separate c.dst c.src c.left → Reaches c (copy_bytes fuel c)
unfolding copy_bytes
copy_bytes-Reaches zero c s = none_yet c
copy_bytes-Reaches (suc fuel) c s = elim (Bool-cases (ltb 0 c.left)) [
  | inl y ↦ rw y (
      after c (copy_byte c) _ s (copy_byte-Reaches c (ground arith))
        (copy_bytes-Reaches fuel (copy_byte c)))
  | inr n ↦ rw n (none_yet c)
]

-- The fuel is enough for the last loop to copy all.
copy_bytes-left : (fuel : ℕ) (c : Copying) → c.left ≤ fuel → (copy_bytes fuel c).left ≡ 0
unfolding copy_bytes
copy_bytes-left zero c h = omega arith
copy_bytes-left (suc fuel) c h = elim (Bool-cases (ltb 0 c.left)) [
  | inl y ↦ rw y (copy_bytes-left fuel (copy_byte c) (ground arith))
  | inr n ↦ rw n (ground arith)
]

-- The range after a copy.
abbrev pub copied : ℕ → ℕ → ℕ → Bytes → Bytes
copied dst src n m a = if leb dst a && ltb a (dst + n) then m (src + (a - dst)) else m a

all_moved :
    (c d : Copying)
    → Reaches c d
    → d.left ≡ 0
    → (a : ℕ) → d.mem a ≡ copied c.dst c.src c.left c.mem a
all_moved c d f z a = let e : f.moved ≡ c.left = omega (arith, f.left) in rw (← e) (f.mem a)

module _ (dst src n : ℕ) (m : Bytes) (s : Separate dst src n) where
  abbrev begin : Copying
  begin = record { dst = dst; src = src; left = n; mem = m }

  by_words : Reaches begin (copy_words n (copy_aligning n begin))
  by_words =
      after begin (copy_aligning n begin) _ s (copy_aligning-Reaches n begin s)
        (copy_words-Reaches n (copy_aligning n begin))

  -- For ranges that do not overlap, at any alignment, `memcpy` leaves in each byte of the target
  -- range the byte of the source at the same distance, and every other byte as it was.
  pub memcpy-copied : (a : ℕ) → memcpy dst src n m a ≡ copied dst src n m a
  unfolding memcpy
  memcpy-copied a = elim (Bool-cases (not (src % 4 == dst % 4))) [
    | inl y ↦ rw y (
        all_moved begin (copy_bytes n begin) (copy_bytes-Reaches n begin s)
          (copy_bytes-left n begin (omega arith)) a)
    | inr x ↦
        let w : Copying = copy_words n (copy_aligning n begin) in
        rw x (
          all_moved begin (copy_bytes n w) (after begin w _ s by_words (copy_bytes-Reaches n w))
            (copy_bytes-left n w (omega (arith, by_words.left))) a)
  ]
