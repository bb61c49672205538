-- ===== src/Tests/Devices.antt =====
-- kern/syscall_all.c: a word for the disk's registers, and a byte from the console.
use os_challenge_sudo_shell.Base.{◌+◌, ◌≡◌, refl, true, [], Returns, arith}
use os_challenge_sudo_shell.Syscall.Devices.{
  Machine, malta_serial_base, malta_ide_base, sys_write_dev, sys_read_dev, is_dev_range,
}
use os_challenge_sudo_shell.Syscall.Accesses.{
  Written, Read, sys_write_dev-Written, sys_read_dev-Read,
}

abbrev machine : Machine
machine = record { memory = λ x. x; written = [] }

sys_write_dev-Written_example :
    Returns
      (sys_write_dev 4194304 (malta_ide_base + 4) 4 machine)
      (Written 4194304 (malta_ide_base + 4) 4 machine)
sys_write_dev-Written_example =
    sys_write_dev-Written 4194304 (malta_ide_base + 4) 4 machine (omega arith) (omega arith)
      (λ w. refl)

sys_read_dev-Read_example :
    Returns
      (sys_read_dev (λ p l. 65) 4194304 malta_serial_base 1 machine)
      (Read 65 4194304 malta_serial_base 1 machine)
sys_read_dev-Read_example =
    sys_read_dev-Read 4194304 malta_serial_base 1 machine (omega arith) (omega arith) (λ w. refl)
      (λ p l. 65) (omega arith)

-- The sum of an address and a width wraps.
last_byte-is_dev_range : is_dev_range 4294967295 1 ≡ true
last_byte-is_dev_range = refl
