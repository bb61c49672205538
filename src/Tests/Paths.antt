-- ===== src/Tests/Paths.antt =====
-- The directories and paths of fs/fs.c on a root directory of one block.
use os_challenge_sudo_shell.Base.{
  ◌≡◌, zero, suc, refl, true, false, ◌||◌, ◌&&◌, none, some, [], ◌∷◌, ◌==◌, if◌then◌else◌, Returns,
  arith,
}
use os_challenge_sudo_shell.Base.Bitmap.{bit}
use os_challenge_sudo_shell.Fs.{Fs, free_bit, with_super}
use os_challenge_sudo_shell.Files.Cached.{Held, Cached}
use os_challenge_sudo_shell.Paths.{root, walk_path, dir_lookup, copy_name}
use os_challenge_sudo_shell.Paths.Elements.{elements, walk_names, walk_path-walk_names}
use os_challenge_sudo_shell.Paths.Lookup.{LookedUp, dir_lookup-LookedUp}
use os_challenge_sudo_shell.Paths.Names.{Name, Spelled, copy_name-Spelled}

-- Block 9 is the block of the root directory, with the files "a" and "b".
abbrev rooted : Fs
rooted = record {
  super = some 40;
  bitmap_read = true;
  mapped = λ b. b == 1 || b == 2 || b == 9;
  dirty = λ b. false;
  cache = λ b i.
      if b == 2 && i == 0
      then 160
      else (if b == 1
          then (if i == 34 then 4096 else (if i == 35 then 1 else (if i == 36 then 9 else 0)))
          else (if b == 9 then (if i == 0 then 97 else (if i == 64 then 98 else 0)) else 0));
  disk = λ b i. 0;
  room = 3;
}

rooted-Held : Held 40 1 2 0 rooted
unfolding free_bit bit
rooted-Held = record {
  direct = omega arith;
  pointer = omega arith;
  below = omega arith;
  used = refl;
  mapped = refl;
}

rooted-Cached : Cached 40 1 2 1 rooted
rooted-Cached = record {
  super = refl;
  size = refl;
  held = elim [ zero ↦ λ h. rooted-Held | suc j ↦ λ h. absurd (omega (arith, h)) ];
}

walk_path-walk_names_example :
    walk_path (47 ∷ 98 ∷ 47 ∷ [])
    ≡ with_super λ n. walk_names (elements (47 ∷ 98 ∷ 47 ∷ [])) none root
walk_path-walk_names_example = walk_path-walk_names (47 ∷ 98 ∷ 47 ∷ [])

dir_lookup-LookedUp_example :
    Returns (dir_lookup (1, 2) (98 ∷ []) rooted) (LookedUp 1 1 2 (98 ∷ []) rooted)
dir_lookup-LookedUp_example =
    dir_lookup-LookedUp 40 1 2 1 (98 ∷ []) rooted (omega arith, tt) rooted-Cached

copy_name-Spelled_example :
    Returns
      (copy_name (104 ∷ 105 ∷ []) 0 (9, 128) rooted)
      (λ _ t. Spelled 0 (104 ∷ 105 ∷ []) (9, 128) rooted t)
unfolding Name
copy_name-Spelled_example =
    copy_name-Spelled (104 ∷ 105 ∷ []) 0 (9, 128) rooted
      (omega arith, omega arith, (omega arith, omega arith, tt))
