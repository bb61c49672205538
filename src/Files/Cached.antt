-- ===== src/Files/Cached.antt =====
-- The blocks of a file that are in the cache, by its direct pointers.
use os_challenge_sudo_shell.Base.{
  ℕ, ◌+◌, ◌/◌, ◌<◌, ◌≡◌, refl, ◌∙◌, Bool, true, false, some, ltb, ◌==◌, done, ok, arith, attempt-ok,
  Holds, Holds-bind, Holds-any, branch, pure,
}
use os_challenge_sudo_shell.Fs.{Fs, free_bit, ndirect, block_size, read_block}
use os_challenge_sudo_shell.Fs.Load.{read_block-mapped}
use os_challenge_sudo_shell.Files.{
  file_block_walk, block_at, file_map_block, file_get_block, Place, word_at, f_size, put, flush_dir,
  file_truncate, file_set_size,
}

-- Block `j` of the file at word `o` of block `b` is in use, has a direct pointer, and is in the cache.
pub record Held (n b o j : ℕ) (s : Fs) : Type 0 where
  pub direct : j < ndirect
  pub pointer : 0 < s.cache b (o + (34 + j))
  pub below : s.cache b (o + (34 + j)) < n
  pub used : free_bit s (s.cache b (o + (34 + j))) ≡ false
  pub mapped : s.mapped (s.cache b (o + (34 + j))) ≡ true

-- The file's size is `count` blocks, which are all so.
pub record Cached (n b o count : ℕ) (s : Fs) : Type 0 where
  pub super : s.super ≡ some n
  pub size : s.cache b (o + 32) / block_size ≡ count
  pub held : (j : ℕ) → j < count → Held n b o j s

file_block_walk-direct :
    (b o j : ℕ) (alloc : Bool) (s : Fs)
    → j < ndirect
    → file_block_walk (b, o) j alloc s ≡ done (ok (b, o + (34 + j)), s)
unfolding file_block_walk
file_block_walk-direct b o j alloc s h = let a : ltb j ndirect ≡ true = ground arith in rw a refl

block_at-set :
    (b i : ℕ) (alloc : Bool) (s : Fs)
    → 0 < s.cache b i
    → block_at (b, i) alloc s ≡ done (ok (s.cache b i), s)
unfolding block_at
block_at-set b i alloc s h = let z : (s.cache b i == 0) ≡ false = ground arith in rw z refl

pub file_map_block-Held :
    (n b o j : ℕ) (alloc : Bool) (s : Fs)
    → Held n b o j s
    → file_map_block (b, o) j alloc s ≡ done (ok (s.cache b (o + (34 + j))), s)
unfolding file_map_block
file_map_block-Held n b o j alloc s h =
    attempt-ok (file_block_walk (b, o) j alloc) _ s _ s
      (file_block_walk-direct b o j alloc s h.direct)
    ∙ block_at-set b (o + (34 + j)) alloc s h.pointer

pub file_get_block-Held :
    (n b o j : ℕ) (s : Fs)
    → s.super ≡ some n
    → Held n b o j s
    → file_get_block (b, o) j s ≡ done (ok (s.cache b (o + (34 + j))), s)
unfolding file_get_block
file_get_block-Held n b o j s q h =
    attempt-ok (file_map_block (b, o) j true) _ s _ s (file_map_block-Held n b o j true s h)
    ∙ attempt-ok (read_block _) _ s _ s (read_block-mapped n _ s q h.below h.used h.mapped)

-- file_set_size has no error to return.
pub file_set_size-ok : (f : Place) (n : ℕ) (s : Fs) → Holds (file_set_size f n s) (λ r t. r ≡ ok tt)
unfolding file_set_size
file_set_size-ok f n s =
    Holds-bind (λ x t. Unit {0}) _
      (branch (ltb n (word_at (f_size f) s)) (file_truncate f n) (pure tt)) _ s (Holds-any _)
      λ x t h.
        Holds-bind (λ y u. Unit {0}) _ (put (f_size f) n) _ t (Holds-any _)
          λ y u g. Holds-bind (λ z w. Unit {0}) _ (flush_dir f) _ u (Holds-any _) λ z w k. refl
