-- ===== src/Paths.antt =====
-- fs/fs.c: the entries of a directory, paths, and the files that they name.
pub mod Elements
pub mod Lookup
pub mod Names
use os_challenge_sudo_shell.Base.{
  ℕ, zero, suc, ◌+◌, ◌-◌, ◌*◌, ◌/◌, ◌%◌, ◌^◌, ◌≡◌, Bool, true, false, not, ◌&&◌, Option, none, some,
  List, [], ◌∷◌, leb, ◌==◌, if◌then◌else◌, Exec, done, pure, branch, attempt, ◌>>=◌, ◌>>◌, Error,
  Result, ok, err, e_not_found, e_bad_path, e_file_exists, e_is_dir,
}
use os_challenge_sudo_shell.Fs.{Fs, block_size, with_super}
use os_challenge_sudo_shell.Files.{
  Place, word_at, put, field, f_size, f_dir, diskmap, file_get_block, file_truncate, file_flush,
  flush_dir,
}
use os_challenge_sudo_shell.Strings.{Sign, equal, strcmp, strlen}

-- Byte `k` of a word; the machine is little-endian.
abbrev pub byte : ℕ → ℕ → ℕ
byte k w = w / 256 ^ k % 256

abbrev pub set_byte : ℕ → ℕ → ℕ → ℕ
set_byte k c w = w / 256 ^ (k + 1) * 256 ^ (k + 1) + c * 256 ^ k + w % 256 ^ k

abbrev pub maxnamelen : ℕ
maxnamelen = 128

-- Files in a block: FILE2BLK
abbrev pub file2blk : ℕ
file2blk = 16

abbrev pub f_type : Place → Place
f_type f = field 33 f

abbrev pub ftype_reg : ℕ
ftype_reg = 0

abbrev pub ftype_dir : ℕ
ftype_dir = 1

-- f_name[j]
abbrev pub name_byte : Place → ℕ → Fs → ℕ
name_byte f j s = byte (j % 4) (word_at (field (j / 4) f) s)

-- The string in f_name, from byte `j` on for at most `n` bytes.
pub name_from : ℕ → Place → ℕ → Fs → List ℕ
name_from zero f j s = []
name_from (suc n) f j s =
    let rest = name_from n f (j + 1) s in
    if name_byte f j s == 0 then [] else name_byte f j s ∷ rest

-- A name that is looked for has less than 128 characters, so strcmp reads no further.
abbrev pub f_name : Place → Fs → List ℕ
f_name f s = name_from maxnamelen f 0 s

-- The address of an entry
abbrev pub address : Place → ℕ
address (b, i) = diskmap + b * 4096 + i * 4

pub is_equal : Sign → Bool
is_equal equal = true
is_equal _ = false

-- The inner loop of dir_lookup, over `count` entries of block `b` from word `i` on.
pub find_name : ℕ → ℕ → ℕ → List ℕ → Fs → Option Place
find_name zero b i name s = none
find_name (suc count) b i name s =
    let rest = find_name count b (i + 64) name s in
    if is_equal (strcmp name (f_name (b, i) s)) then some (b, i) else rest

pub name_found : Exec Fs (Result Place) → Place → Option Place → Exec Fs (Result Place)
name_found rest dir none = rest
name_found rest dir (some f) = put (f_dir f) (address dir) >> pure (ok f)

-- The loop of dir_lookup, over `count` blocks of the directory from `i` on.
pub lookup_blocks : ℕ → ℕ → Place → List ℕ → Exec Fs (Result Place)
lookup_blocks zero i dir name = pure (err e_not_found)
lookup_blocks (suc count) i dir name = attempt (file_get_block dir i) λ b.
    λ s. name_found (lookup_blocks count (i + 1) dir name) dir (find_name file2blk b 0 name s) s

pub dir_lookup : Place → List ℕ → Exec Fs (Result Place)
dir_lookup dir name s = lookup_blocks (word_at (f_size dir) s / block_size) 0 dir name s

-- The inner loop of dir_alloc_file
pub find_free : ℕ → ℕ → ℕ → Fs → Option Place
find_free zero b i s = none
find_free (suc count) b i s =
    let rest = find_free count b (i + 64) s in
    if name_byte (b, i) 0 s == 0 then some (b, i) else rest

pub free_found : Exec Fs (Result Place) → Option Place → Exec Fs (Result Place)
free_found rest none = rest
free_found rest (some f) = pure (ok f)

-- The end of dir_alloc_file: the directory gets one block more.
pub grow_dir : Place → ℕ → Exec Fs (Result Place)
grow_dir dir i s =
    (put (f_size dir) ((word_at (f_size dir) s + block_size) % 2 ^ 32)
        >> attempt (file_get_block dir i) (λ b. pure (ok (b, 0))))
      s

pub alloc_in_blocks : ℕ → ℕ → Place → Exec Fs (Result Place)
alloc_in_blocks zero i dir = grow_dir dir i
alloc_in_blocks (suc count) i dir =
    attempt (file_get_block dir i)
      λ b. λ s. free_found (alloc_in_blocks count (i + 1) dir) (find_free file2blk b 0 s) s

pub dir_alloc_file : Place → Exec Fs (Result Place)
dir_alloc_file dir s = alloc_in_blocks (word_at (f_size dir) s / block_size) 0 dir s

-- The character '/'
abbrev pub slash : ℕ
slash = 47

-- A path is the list of its characters before the terminating zero.
pub skip_slash : List ℕ → List ℕ
skip_slash [] = []
skip_slash (c ∷ p) = if c == slash then skip_slash p else c ∷ p

-- The characters up to the next slash, and the path from there on.
pub element : List ℕ → List ℕ
element [] = []
element (c ∷ p) = if c == slash then [] else c ∷ element p

pub after_element : List ℕ → List ℕ
after_element [] = []
after_element (c ∷ p) = if c == slash then c ∷ p else after_element p

-- What walk_path returns: 0 with *pdir and *pfile, where *pdir is null for the root; -E_NOT_FOUND with
-- *pdir and lastelem; an error with *pdir null.
pub data Walk : Type 0 where
  found : Option Place → Place → Walk
  absent : Place → List ℕ → Walk
  failed : Error → Walk

-- `*path == '\0'`
pub is_end {ℓ} : {A : Type ℓ} → List A → Bool
is_end [] = true
is_end (x ∷ p) = false

pub missing : Place → List ℕ → Bool → Error → Walk
missing dir name true e_not_found = absent dir name
missing dir name _ e = failed e

pub looked_up : (Place → Exec Fs Walk) → Place → List ℕ → Bool → Result Place → Exec Fs Walk
looked_up next dir name last (ok f) = next f
looked_up next dir name last (err e) = pure (missing dir name last e)

-- One round of the loop of walk_path, where `next` is the rest of the loop and `last` whether the path ends.
pub enter : (Place → Exec Fs Walk) → Place → List ℕ → Bool → Exec Fs Walk
enter next dir name last = branch (leb maxnamelen (strlen name)) (pure (failed e_bad_path)) λ s.
    branch (not (word_at (f_type dir) s == ftype_dir)) (pure (failed e_not_found))
      (dir_lookup dir name >>= looked_up next dir name last) s

-- The loop of walk_path. The fuel is the length of the path, as each round takes one character at least.
pub walk_from : ℕ → List ℕ → Option Place → Place → Exec Fs Walk
walk_from fuel [] dir file = pure (found dir file)
walk_from zero (c ∷ p) dir file = pure (failed e_bad_path)
walk_from (suc fuel) (c ∷ p) dir file =
    let rest = skip_slash (after_element (c ∷ p)) in
    enter (walk_from fuel rest (some file)) file (element (c ∷ p)) (is_end rest)

-- &super->s_root
abbrev pub root : Place
root = (1, 2)

pub walk_path : List ℕ → Exec Fs Walk
walk_path path = with_super λ n. walk_from (strlen path) (skip_slash path) none root

pub file_of : Walk → Result Place
file_of (found dir f) = ok f
file_of (absent dir name) = err e_not_found
file_of (failed e) = err e

pub file_open : List ℕ → Exec Fs (Result Place)
file_open path = walk_path path >>= λ w. pure (file_of w)

abbrev pub o_mkdir : ℕ
o_mkdir = 0x800

-- strcpy to f_name
pub copy_name : List ℕ → ℕ → Place → Exec Fs (Unit {0})
copy_name [] j f s = put (field (j / 4) f) (set_byte (j % 4) 0 (word_at (field (j / 4) f) s)) s
copy_name (c ∷ name) j f s =
    (put (field (j / 4) f) (set_byte (j % 4) c (word_at (field (j / 4) f) s))
        >> copy_name name (j + 1) f)
      s

-- The entry that dir_alloc_file has found is filled; its error is not passed on.
pub fill_entry : ℕ → List ℕ → Result Place → Exec Fs (Result Place)
fill_entry mode name (err e) = pure (err e_not_found)
fill_entry mode name (ok f) =
    put (f_type f) (if mode == o_mkdir then ftype_dir else ftype_reg)
    >> (copy_name name 0 f >> pure (ok f))

pub create_at : ℕ → Walk → Exec Fs (Result Place)
create_at mode (found dir f) = pure (err e_file_exists)
create_at mode (absent dir name) = dir_alloc_file dir >>= fill_entry mode name
create_at mode (failed e) = pure (err e)

pub file_create : ℕ → List ℕ → Exec Fs (Result Place)
file_create mode path = walk_path path >>= create_at mode

-- The end of file_remove: the file is truncated, its name is cleared, and it is flushed.
pub remove_file : Place → Exec Fs (Result (Unit {0}))
remove_file f =
    file_truncate f 0
    >> ((λ s. put f (set_byte 0 0 (word_at f s)) s)
        >> (file_flush f >> (flush_dir f >> pure (ok tt))))

pub remove_at : ℕ → Result Place → Exec Fs (Result (Unit {0}))
remove_at type (err e) = pure (err e)
remove_at type (ok f) = λ s.
    branch (word_at (f_type f) s == ftype_dir && type == 0) (pure (err e_is_dir)) (remove_file f) s

pub file_remove : List ℕ → ℕ → Exec Fs (Result (Unit {0}))
file_remove path type = walk_path path >>= λ w. remove_at type (file_of w)
