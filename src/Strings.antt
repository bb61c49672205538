-- ===== src/Strings.antt =====
-- lib/string.c: memcpy and memset on bytes of memory, and the functions on strings.
pub mod Copy
pub mod Fill
pub mod Order
use os_challenge_sudo_shell.Base.{
  ℕ, zero, suc, ◌+◌, ◌-◌, ◌*◌, ◌/◌, ◌%◌, ◌≡◌, refl, Bool, true, false, not, ◌&&◌, List, [], ◌∷◌,
  ltb, leb, ◌==◌, if◌then◌else◌, update, Option, none, some,
}

-- Memory by bytes.
abbrev pub Bytes : Type 0
Bytes = ℕ → ℕ

-- What the loops of memcpy share: the two pointers, the bytes up to `max`, and memory.
pub record Copying : Type 0 where
  pub dst : ℕ
  pub src : ℕ
  pub left : ℕ
  pub mem : Bytes

-- `*(char *)dst++ = *(char *)src++`
abbrev pub copy_byte : Copying → Copying
copy_byte c = record {
  dst = c.dst + 1;
  src = c.src + 1;
  left = c.left - 1;
  mem = update c.mem c.dst (c.mem c.src);
}

-- A word is read before it is written.
abbrev pub copy_word : Copying → Copying
copy_word c = record {
  dst = c.dst + 4;
  src = c.src + 4;
  left = c.left - 4;
  mem = λ a. if leb c.dst a && ltb a (c.dst + 4) then c.mem (c.src + (a - c.dst)) else c.mem a;
}

-- The three loops of memcpy. The fuel is the number of bytes that are left, and is enough as each round
-- takes one at least.
pub copy_aligning : ℕ → Copying → Copying
copy_aligning zero c = c
copy_aligning (suc fuel) c =
    let rest = copy_aligning fuel (copy_byte c) in
    if not (c.dst % 4 == 0) && ltb 0 c.left then rest else c

pub copy_words : ℕ → Copying → Copying
copy_words zero c = c
copy_words (suc fuel) c =
    let rest = copy_words fuel (copy_word c) in if leb 4 c.left then rest else c

pub copy_bytes : ℕ → Copying → Copying
copy_bytes zero c = c
copy_bytes (suc fuel) c =
    let rest = copy_bytes fuel (copy_byte c) in if ltb 0 c.left then rest else c

abbrev start : ℕ → ℕ → ℕ → Bytes → Copying
start dst src n m = record { dst = dst; src = src; left = n; mem = m }

pub memcpy : ℕ → ℕ → ℕ → Bytes → Bytes
memcpy dst src n m =
    if not (src % 4 == dst % 4)
    then (copy_bytes n (start dst src n m)).mem
    else (copy_bytes n (copy_words n (copy_aligning n (start dst src n m)))).mem

pub record Filling : Type 0 where
  pub dst : ℕ
  pub left : ℕ
  pub mem : Bytes

abbrev pub fill_byte : ℕ → Filling → Filling
fill_byte v c = record { dst = c.dst + 1; left = c.left - 1; mem = update c.mem c.dst v }

-- The word has the byte in each of its four places.
abbrev pub fill_word : ℕ → Filling → Filling
fill_word v c = record {
  dst = c.dst + 4;
  left = c.left - 4;
  mem = λ a. if leb c.dst a && ltb a (c.dst + 4) then v else c.mem a;
}

pub fill_aligning : ℕ → ℕ → Filling → Filling
fill_aligning zero v c = c
fill_aligning (suc fuel) v c =
    let rest = fill_aligning fuel v (fill_byte v c) in
    if not (c.dst % 4 == 0) && ltb 0 c.left then rest else c

pub fill_words : ℕ → ℕ → Filling → Filling
fill_words zero v c = c
fill_words (suc fuel) v c =
    let rest = fill_words fuel v (fill_word v c) in if leb 4 c.left then rest else c

pub fill_bytes : ℕ → ℕ → Filling → Filling
fill_bytes zero v c = c
fill_bytes (suc fuel) v c =
    let rest = fill_bytes fuel v (fill_byte v c) in if ltb 0 c.left then rest else c

pub memset : ℕ → ℕ → ℕ → Bytes → Bytes
memset dst c n m =
    let v : ℕ = c % 256 in
    (fill_bytes n v
      (fill_words n v (fill_aligning n v (record { dst = dst; left = n; mem = m })))).mem

-- A string is the list of its characters before the terminating zero.
unfoldable pub strlen : List ℕ → ℕ
strlen [] = 0
strlen (c ∷ s) = suc (strlen s)

-- strchr, with the rest of the string for the pointer
unfoldable pub strchr : List ℕ → ℕ → Option (List ℕ)
strchr [] x = none
strchr (c ∷ s) x = if c == x then some (c ∷ s) else strchr s x

-- The results -1, 0 and 1 of strcmp
pub data Sign : Type 0 where
  less equal greater : Sign

abbrev pub sign_of : ℕ → ℕ → Sign
sign_of p q = if ltb p q then less else (if ltb q p then greater else equal)

pub strcmp : List ℕ → List ℕ → Sign
strcmp [] [] = equal
strcmp [] (d ∷ q) = sign_of 0 d
strcmp (c ∷ p) [] = sign_of c 0
strcmp (c ∷ p) (d ∷ q) = if c == d then strcmp p q else sign_of c d
