-- ===== src/Fd/Reading.antt =====
-- readn of user/lib/fd.c: its loop ends, and what it returns.
use os_challenge_sudo_shell.Base.{
  ℕ, zero, suc, ◌+◌, ◌-◌, ◌≤◌, ◌<◌, ◌≡◌, refl, sym, ap, fun_ext, false, ltb, List, Exec, pure,
  branch, ◌>>=◌, Result, ok, err, arith,
}
use os_challenge_sudo_shell.Fd.{User, Dev, read, read_more, readn_from, readn}

stops :
    (devtab : List Dev) (fuel fdnum buf n tot : ℕ)
    → n ≤ tot
    → readn_from devtab fuel fdnum buf n tot ≡ pure (ok tot)
unfolding readn_from
stops devtab zero fdnum buf n tot h = refl
stops devtab (suc fuel) fdnum buf n tot h = let x : ltb tot n ≡ false = ground arith in rw x refl

-- Two continuations that agree past `tot` give the same.
read_more-same :
    (devtab : List Dev) (f g : ℕ → Exec User (Result ℕ)) (tot : ℕ)
    → ((k : ℕ) → tot < k → f k ≡ g k)
    → (r : Result ℕ) → read_more devtab f tot r ≡ read_more devtab g tot r
unfolding read_more
read_more-same devtab f g tot h (ok zero) = refl
read_more-same devtab f g tot h (ok (suc m)) = h (tot + suc m) (omega arith)
read_more-same devtab f g tot h (err e) = refl

readn_from-same :
    (devtab : List Dev) (fuel more fdnum buf n tot : ℕ)
    → n ≤ tot + fuel
    → n ≤ tot + more
    → readn_from devtab fuel fdnum buf n tot ≡ readn_from devtab more fdnum buf n tot
unfolding readn_from
readn_from-same devtab zero more fdnum buf n tot h g =
    sym (stops devtab more fdnum buf n tot (omega arith))
readn_from-same devtab (suc fuel) zero fdnum buf n tot h g =
    stops devtab (suc fuel) fdnum buf n tot (omega arith)
readn_from-same devtab (suc fuel) (suc more) fdnum buf n tot h g =
    ap (λ k. branch (ltb tot n) (read devtab fdnum (buf + tot) (n - tot) >>= k) (pure (ok tot)))
      (fun_ext λ r.
        read_more-same devtab (readn_from devtab fuel fdnum buf n)
          (readn_from devtab more fdnum buf n) tot
          (λ k l. readn_from-same devtab fuel more fdnum buf n k (omega arith) (omega arith)) r)

-- For any devices, the loop of `readn` gives the same with any fuel of at least the number of bytes
-- that are asked for.
pub readn-readn_from :
    (devtab : List Dev) (fuel fdnum buf n : ℕ)
    → n ≤ fuel
    → readn_from devtab fuel fdnum buf n 0 ≡ readn devtab fdnum buf n
unfolding readn
readn-readn_from devtab fuel fdnum buf n h =
    readn_from-same devtab fuel n fdnum buf n 0 (omega arith) (omega arith)
