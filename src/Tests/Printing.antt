-- ===== src/Tests/Printing.antt =====
-- lib/print.c on small numbers and formats.
use os_challenge_sudo_shell.Base.{arith, true, false}
use os_challenge_sudo_shell.Print.{print_num}
use os_challenge_sudo_shell.Print.Numbers.{Printed, print_num-Printed}

-- "%05d" of -42
print_num-Printed_example :
    Printed 42 10 true 5 false 48 false (print_num 42 10 true 5 false 48 false (λ i. 0))
print_num-Printed_example = print_num-Printed 42 10 true 5 false 48 false (λ i. 0) (omega arith)
