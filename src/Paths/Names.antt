-- ===== src/Paths/Names.antt =====
-- The name of a directory entry: strcpy to f_name, and what is read back.
use os_challenge_sudo_shell.Base.{
  ℕ, zero, suc, ◌+◌, ◌/◌, ◌%◌, ◌<◌, ◌≡◌, ◌≢◌, refl, ap, ◌∙◌, true, false, List, [], ◌∷◌, ◌==◌,
  arith, subst, Returns, Returns-weaken, Bool-cases, inl, inr, ==→ne, ==_iff,
}
use os_challenge_sudo_shell.Fs.{Fs}
use os_challenge_sudo_shell.Files.{Place, put}
use os_challenge_sudo_shell.Files.Walk.{written}
use os_challenge_sudo_shell.Strings.{strlen}
use os_challenge_sudo_shell.Paths.{byte, set_byte, name_byte, name_from, copy_name}

byte-set_byte : (k c w : ℕ) → k < 4 → c < 256 → byte k (set_byte k c w) ≡ c
byte-set_byte zero c w h l = omega arith
byte-set_byte (suc zero) c w h l = omega arith
byte-set_byte (suc (suc zero)) c w h l = omega arith
byte-set_byte (suc (suc (suc zero))) c w h l = omega arith
byte-set_byte (suc (suc (suc (suc k)))) c w h l = absurd (omega arith)

byte-set_byte_0 : (k c w : ℕ) → k < 4 → c < 256 → k ≢ 0 → byte k (set_byte 0 c w) ≡ byte k w
byte-set_byte_0 zero c w h l n = absurd (n refl)
byte-set_byte_0 (suc zero) c w h l n = omega arith
byte-set_byte_0 (suc (suc zero)) c w h l n = omega arith
byte-set_byte_0 (suc (suc (suc zero))) c w h l n = omega arith
byte-set_byte_0 (suc (suc (suc (suc k)))) c w h l n = absurd (omega arith)

byte-set_byte_1 : (k c w : ℕ) → k < 4 → c < 256 → k ≢ 1 → byte k (set_byte 1 c w) ≡ byte k w
byte-set_byte_1 zero c w h l n = omega arith
byte-set_byte_1 (suc zero) c w h l n = absurd (n refl)
byte-set_byte_1 (suc (suc zero)) c w h l n = omega arith
byte-set_byte_1 (suc (suc (suc zero))) c w h l n = omega arith
byte-set_byte_1 (suc (suc (suc (suc k)))) c w h l n = absurd (omega arith)

byte-set_byte_2 : (k c w : ℕ) → k < 4 → c < 256 → k ≢ 2 → byte k (set_byte 2 c w) ≡ byte k w
byte-set_byte_2 zero c w h l n = omega arith
byte-set_byte_2 (suc zero) c w h l n = omega arith
byte-set_byte_2 (suc (suc zero)) c w h l n = absurd (n refl)
byte-set_byte_2 (suc (suc (suc zero))) c w h l n = omega arith
byte-set_byte_2 (suc (suc (suc (suc k)))) c w h l n = absurd (omega arith)

byte-set_byte_3 : (k c w : ℕ) → k < 4 → c < 256 → k ≢ 3 → byte k (set_byte 3 c w) ≡ byte k w
byte-set_byte_3 zero c w h l n = omega arith
byte-set_byte_3 (suc zero) c w h l n = omega arith
byte-set_byte_3 (suc (suc zero)) c w h l n = omega arith
byte-set_byte_3 (suc (suc (suc zero))) c w h l n = absurd (n refl)
byte-set_byte_3 (suc (suc (suc (suc k)))) c w h l n = absurd (omega arith)

byte-set_byte_ne :
    (k j c w : ℕ) → k < 4 → j < 4 → c < 256 → k ≢ j → byte k (set_byte j c w) ≡ byte k w
byte-set_byte_ne k zero c w h g l n = byte-set_byte_0 k c w h l n
byte-set_byte_ne k (suc zero) c w h g l n = byte-set_byte_1 k c w h l n
byte-set_byte_ne k (suc (suc zero)) c w h g l n = byte-set_byte_2 k c w h l n
byte-set_byte_ne k (suc (suc (suc zero))) c w h g l n = byte-set_byte_3 k c w h l n
byte-set_byte_ne k (suc (suc (suc (suc j)))) c w h g l n = absurd (omega arith)

-- The state after f_name[j] is set.
named : ℕ → ℕ → Place → Fs → Fs
named j c (b, o) s = written b (o + j / 4) (set_byte (j % 4) c (s.cache b (o + j / 4))) s

word-written : (b i v : ℕ) (s : Fs) → (written b i v s).cache b i ≡ v
word-written b i v s = ground arith

word-written_ne : (b i j v : ℕ) (s : Fs) → i ≢ j → (written b i v s).cache b j ≡ s.cache b j
word-written_ne b i j v s n = ground arith

name_byte-named : (j c : ℕ) (f : Place) (s : Fs) → c < 256 → name_byte f j (named j c f s) ≡ c
unfolding named
name_byte-named j c (b, o) s l =
    ap (λ w. byte (j % 4) w) (word-written b (o + j / 4) _ s)
    ∙ byte-set_byte (j % 4) c (s.cache b (o + j / 4)) (omega arith) l

name_byte-named_ne :
    (j k c : ℕ) (f : Place) (s : Fs)
    → c < 256
    → k ≢ j
    → name_byte f k (named j c f s) ≡ name_byte f k s
unfolding named
name_byte-named_ne j k c (b, o) s l n = elim (Bool-cases (j / 4 == k / 4)) [
  | inl y ↦
      let e : j / 4 ≡ k / 4 = (==_iff (j / 4) (k / 4)).0 y in
      let w : (named j c (b, o) s).cache b (o + k / 4)
          ≡ set_byte (j % 4) c (s.cache b (o + k / 4)) =
        subst (λ i. (named j c (b, o) s).cache b (o + i) ≡ set_byte (j % 4) c (s.cache b (o + i))) e
          (word-written b (o + j / 4) _ s) in
      ap (λ x. byte (k % 4) x) w
      ∙ byte-set_byte_ne (k % 4) (j % 4) c (s.cache b (o + k / 4)) (omega arith) (omega arith) l
          λ x. n (omega (arith, e, x))
  | inr x ↦
      ap (λ w. byte (k % 4) w)
        (word-written_ne b (o + j / 4) (o + k / 4) _ s
          λ g. ==→ne (j / 4) (k / 4) x (omega (arith, g)))
]

-- What strcpy from byte `j` on leaves: the name with its terminating zero, all else of the block as it was.
pub Spelled : ℕ → List ℕ → Place → Fs → Fs → Type 0
Spelled j name (b, o) s t =
    ((n : ℕ) → strlen name < n → name_from n (b, o) j t ≡ name)
    × ((k : ℕ) → k < j → name_byte (b, o) k t ≡ name_byte (b, o) k s)
    × ((i : ℕ) → i < o → t.cache b i ≡ s.cache b i)
    × ((i : ℕ) → o + (j + strlen name) / 4 < i → t.cache b i ≡ s.cache b i)
    × ((c i : ℕ) → c ≢ b → t.cache c i ≡ s.cache c i)
    × (t.super ≡ s.super)
    × (t.mapped ≡ s.mapped)

-- The characters of a name are bytes other than 0.
unfoldable pub Name : List ℕ → Type 0
Name [] = Unit {0}
Name (c ∷ name) = (0 < c) × (c < 256) × Name name

name_from-end : (n : ℕ) (f : Place) (j : ℕ) (s : Fs) → name_byte f j s ≡ 0 → name_from n f j s ≡ []
unfolding name_from
name_from-end zero f j s z = refl
name_from-end (suc n) f j s z =
    let y : (name_byte f j s == 0) ≡ true = ground (arith, z) in rw y refl

name_from-cons :
    (n c : ℕ) (name : List ℕ) (f : Place) (j : ℕ) (s : Fs)
    → 0 < c
    → name_byte f j s ≡ c
    → name_from n f (j + 1) s ≡ name
    → name_from (suc n) f j s ≡ c ∷ name
unfolding name_from
name_from-cons n c name f j s l z r =
    let y : (name_byte f j s == 0) ≡ false = ground (arith, l, z) in rw y λ i. z i ∷ r i

Spelled-nil : (j : ℕ) (f : Place) (s : Fs) → Spelled j [] f s (named j 0 f s)
unfolding Spelled named strlen
Spelled-nil j (b, o) s = (
  λ n h. name_from-end n (b, o) j (named j 0 (b, o) s) (name_byte-named j 0 (b, o) s (omega arith)),
  λ k h. name_byte-named_ne j k 0 (b, o) s (omega arith) (λ e. omega (arith, h, e)),
  λ i h. word-written_ne b (o + j / 4) i _ s (λ e. omega (arith, h, e)),
  λ i h. word-written_ne b (o + j / 4) i _ s (λ e. omega (arith, h, e)),
  λ c i n. ground arith,
  refl,
  refl,
)

Spelled-cons :
    (c : ℕ) (name : List ℕ) (j : ℕ) (f : Place) (s t : Fs)
    → 0 < c
    → c < 256
    → Spelled (j + 1) name f (named j c f s) t
    → Spelled j (c ∷ name) f s t
unfolding Spelled named strlen
Spelled-cons c name j (b, o) s t p l (r, k, lo, hi, other, sup, map) = (
  λ n h.
      elim n as (λ m. strlen (c ∷ name) < m → name_from m (b, o) j t ≡ c ∷ name) [
        | zero ↦ λ g. absurd (omega arith)
        | suc m ↦ λ g.
            name_from-cons m c name (b, o) j t p
              (k j (omega arith) ∙ name_byte-named j c (b, o) s l) (r m (omega arith))
      ]
        h,
  λ i h. k i (omega arith) ∙ name_byte-named_ne j i c (b, o) s l (λ e. omega (arith, h, e)),
  λ i h. lo i h ∙ word-written_ne b (o + j / 4) i _ s (λ e. omega (arith, h, e)),
  λ i h. hi i (omega arith) ∙ word-written_ne b (o + j / 4) i _ s (λ e. omega (arith, h, e)),
  λ d i n. other d i n ∙ ground arith,
  sup,
  map,
)

-- For a name of bytes other than 0, `strcpy` to f_name from byte `j` on comes to an end; then the
-- string read from there, by any number of bytes that is larger than the name's length, is the
-- name, the bytes before are as they were, and so are all words before the entry, all words past
-- the one with the terminating zero, and all other blocks.
pub copy_name-Spelled :
    (name : List ℕ) (j : ℕ) (f : Place) (s : Fs)
    → Name name
    → Returns (copy_name name j f s) (λ _ t. Spelled j name f s t)
unfolding copy_name Name put named
copy_name-Spelled [] j (b, o) s u = Spelled-nil j (b, o) s
copy_name-Spelled (c ∷ name) j (b, o) s (p, l, u) =
    Returns-weaken _ _ (copy_name name (j + 1) (b, o) (named j c (b, o) s))
      (copy_name-Spelled name (j + 1) (b, o) (named j c (b, o) s) u)
      λ x t h. Spelled-cons c name j (b, o) s t p l h
