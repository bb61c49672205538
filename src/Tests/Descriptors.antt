-- ===== src/Tests/Descriptors.antt =====
-- user/lib/fd.c on an environment with one open descriptor.
use os_challenge_sudo_shell.Fd.{fd_alloc}
use os_challenge_sudo_shell.Fd.Numbers.{Unused, fd_alloc-Unused}
use os_challenge_sudo_shell.Base.{
  ◌≡◌, ℕ, ◌+◌, ◌*◌, ◌≤◌, ◌^◌, refl, arith, [], ◌∷◌, min, pure, ok, ◌==◌, if◌then◌else◌, Returns,
}
use os_challenge_sudo_shell.Fd.{
  User, Dev, num2fd, fd2num, fd2data, filebase, readn_from, readn, dup,
}
use os_challenge_sudo_shell.Fd.Numbers.{InData, num2fd-InData}
use os_challenge_sudo_shell.Fd.Reading.{readn-readn_from}
use os_challenge_sudo_shell.Fd.Sharing.{Shared, dup-Shared}

-- Descriptor 0 is mapped to page 7.
abbrev user : User
user = record {
  vpd = λ i. if i == 383 then 128 else 0;
  vpt = λ i. if i == 0x5fc00 then 7 * 4096 + 0x680 else 0;
  fds = λ p. record { fd_dev_id = 102; fd_offset = 0; fd_omode = 0 };
  mem = λ a. 0;
  room = 1;
}

num2fd-InData_example :
    (fd2num (num2fd 3) ≡ 3)
    × (num2fd 3 + 4096 ≤ filebase)
    × (fd2data (num2fd 3) + 2 ^ 22 ≤ 2 ^ 31)
    × (InData 3 0x61000000 → InData 4 0x61000000 → ◌≡◌ {A = ℕ} 3 4)
num2fd-InData_example = num2fd-InData 3 4 0x61000000 (omega arith) (omega arith)

-- A file that gives three bytes at a time
abbrev threes : Dev
threes = record {
  dev_id = 102;
  dev_read = λ fd buf n offset. pure (ok (min n 3));
  dev_write = λ fd buf n offset. pure (ok n);
  dev_close = λ fd. pure (ok tt);
  dev_stat = λ fd st. pure (ok st);
}

readn-readn_from_example : readn_from (threes ∷ []) 9 0 64 8 0 ≡ readn (threes ∷ []) 0 64 8
readn-readn_from_example = readn-readn_from (threes ∷ []) 9 0 64 8 (omega arith)

dup-Shared_example : Returns (dup (threes ∷ []) 0 1 user) (Shared 0 1 user)
dup-Shared_example = dup-Shared 0 1 user (omega arith) (omega arith) refl refl (threes ∷ [])

fd_alloc-Unused_example : Unused 31 0 user (fd_alloc user)
fd_alloc-Unused_example = fd_alloc-Unused user
