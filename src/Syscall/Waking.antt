-- ===== src/Syscall/Waking.antt =====
-- sys_set_env_status and sys_env_destroy of kern/syscall_all.c, and the queue that they change.
use os_challenge_sudo_shell.Kernel.{Kernel}
