-- ===== src/Tests/Forks.antt =====
-- user/lib/fork.c on an environment with a writable page and a library page.
use os_challenge_sudo_shell.Base.{◌+◌, ◌*◌, false, ok, ◌==◌, if◌then◌else◌}
use os_challenge_sudo_shell.Fork.{Space, Around, fork}
use os_challenge_sudo_shell.Fork.Isolation.{Isolated, fork-Isolated}

-- Page 1024 is page 7 and writable, page 1025 is page 8 and a writable library page.
abbrev parent : Space
parent = record {
  vpd = λ i. if i == 1 then 128 else 0;
  vpt = λ x. if x == 1024 then 7 * 4096 + 0x780 else (if x == 1025 then 8 * 4096 + 0x782 else 0);
  child = λ x. 0;
  handler = false;
  child_handler = false;
  child_runnable = false;
}

-- The parent writes page 1024, and gets page 9 for it.
abbrev around : Around
around = record { refused = λ x. x == 5; writes = λ x. x == 1024; fresh = λ x. 9 }

fork-Isolated_example : Isolated around parent (fork around (ok 2049) parent).1
fork-Isolated_example = fork-Isolated around 2048 parent
