-- ===== src/Tests/Disk.antt =====
-- fs/fs.c on a disk of forty blocks.
use os_challenge_sudo_shell.Base.{
  ◌≡◌, ℕ, zero, suc, ◌<◌, ◌+◌, attempt, ◌||◌, refl, true, false, ◌&&◌, some, ◌==◌, if◌then◌else◌,
  Returns, arith,
}
use os_challenge_sudo_shell.Fs.{free_bit, Fs, alloc_block}
use os_challenge_sudo_shell.Fs.Blocks.{Ready, Apart}
use os_challenge_sudo_shell.Fs.Cache.{disk_bit, Allocated, alloc_block-Allocated}
use os_challenge_sudo_shell.Files.{file_map_block, file_clear_block, file_truncate}
use os_challenge_sudo_shell.Files.Walk.{Restored, file_map_block-file_clear_block}
use os_challenge_sudo_shell.Files.Truncate.{Shrunk, file_truncate-Shrunk}
use os_challenge_sudo_shell.Base.Bitmap.{bit}
use os_challenge_sudo_shell.Mount.{read_bitmap, nbitmap}
use os_challenge_sudo_shell.Mount.Bits.{read_bitmap-Ready}

-- Blocks 5 and 7 are free; block 2 holds the bitmap.
abbrev disk : Fs
disk = record {
  super = some 40;
  bitmap_read = true;
  mapped = λ b. b == 2;
  dirty = λ b. false;
  cache = λ b i. if b == 2 && i == 0 then 160 else 0;
  disk = λ b i. if b == 2 && i == 0 then 160 else 0;
  room = 3;
}

disk-Ready : Ready 40 disk
disk-Ready = record { size = refl; read = refl; bits = λ b h. ground arith }

alloc_block-Allocated_example : Returns (alloc_block disk) (Allocated 40 disk)
alloc_block-Allocated_example = alloc_block-Allocated 40 disk disk-Ready

-- The entry of a file stands at the start of block 9: two blocks, 20 and 21.
abbrev with_file : Fs
with_file = record disk {
  mapped = λ b. b == 2 || b == 9;
  cache = λ b i.
      if b == 2 && i == 0
      then 160
      else (if b == 9
          then (if i == 32 then 8192 else (if i == 34 then 20 else (if i == 35 then 21 else 0)))
          else 0);
}

with_file-Ready : Ready 40 with_file
with_file-Ready = record { size = refl; read = refl; bits = λ b h. ground arith }

nine-Apart : Apart 40 9
nine-Apart = λ c h e. omega arith

file_map_block-file_clear_block_example :
    Returns
      (attempt (file_map_block (9, 0) 2 true) (λ d. file_clear_block (9, 0) 2) with_file)
      (λ _ t. Restored 40 9 with_file t)
file_map_block-file_clear_block_example =
    file_map_block-file_clear_block 40 9 0 2 with_file (omega arith) with_file-Ready refl nine-Apart
      refl

file_truncate-Shrunk_example :
    Returns (file_truncate (9, 0) 100 with_file) (λ _ t. Shrunk 40 9 0 100 with_file t)
file_truncate-Shrunk_example =
    file_truncate-Shrunk 40 9 0 100 with_file nine-Apart with_file-Ready refl (omega arith)
      (omega arith) refl

-- The same disk before its bitmap is read.
abbrev unread : Fs
unread = record disk { bitmap_read = false; mapped = λ b. b == 1; cache = λ b i. 0 }

unread-used : (b : ℕ) → b < nbitmap 40 + 2 → disk_bit unread b ≡ false
unfolding bit
unread-used zero h = refl
unread-used (suc zero) h = refl
unread-used (suc (suc zero)) h = refl
unread-used (suc (suc (suc b))) h = absurd (omega arith)

read_bitmap-Ready_example :
    Returns
      (read_bitmap unread)
      (λ _ t. Ready 40 t × ((b : ℕ) → b < 40 → free_bit t b ≡ disk_bit unread b))
read_bitmap-Ready_example =
    read_bitmap-Ready 40 2 unread refl (omega arith) refl (λ x a b. ground arith) refl unread-used
