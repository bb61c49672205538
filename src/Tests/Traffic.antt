-- ===== src/Tests/Traffic.antt =====
-- user/lib/pipe.c on a new pipe.
use os_challenge_sudo_shell.Base.{ℕ, ◌≡◌, false, List, [], ◌∷◌, ◌++◌, arith}
use os_challenge_sudo_shell.Pipe.{Pipe, write_on, read_on}
use os_challenge_sudo_shell.Pipe.Order.{InOrder}
use os_challenge_sudo_shell.Pipe.Traffic.{Wire, writes, reads, rest, more, Sane, stream, Run-stream}

abbrev new_pipe : Pipe
new_pipe = record { p_rpos = 0; p_wpos = 0; p_buf = λ i. 0 }

abbrev greeting : List ℕ
greeting = 104 ∷ 105 ∷ []

new_pipe-InOrder : InOrder new_pipe
new_pipe-InOrder = record { order = omega arith; few = omega arith; small = omega arith }

abbrev before : Wire
before = record { to_write = greeting; got = []; pipe = new_pipe }

abbrev between : Wire
between = record before {
  to_write = (write_on greeting false new_pipe).1.0;
  pipe = (write_on greeting false new_pipe).1.1;
}

abbrev behind : Wire
behind = record between {
  got = [] ++ (read_on 1 false false between.pipe).1.0;
  pipe = (read_on 1 false false between.pipe).1.1;
}

Run-stream_example : (stream behind ≡ stream before) × Sane behind
Run-stream_example =
    Run-stream before behind
      (more before between behind (more before before between (rest before) (writes before false))
        (reads between 1 false false))
      (new_pipe-InOrder, omega arith)
