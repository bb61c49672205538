-- ===== src/Shell.antt =====
-- user/sh.c: the lexer, the reading of a line, comments and job numbers.
pub mod Scan
pub mod Tokens
pub mod Bounds
pub mod Words
pub mod Lines
use os_challenge_sudo_shell.Base.{
  ℕ, zero, suc, ◌+◌, ◌-◌, ◌*◌, ◌/◌, ◌%◌, ◌^◌, ◌≡◌, Bool, true, false, not, ◌&&◌, ◌||◌, Option, none,
  some, List, [], ◌∷◌, leb, ltb, ◌==◌, if◌then◌else◌, update,
}
use os_challenge_sudo_shell.Strings.{Bytes, strchr}

pub is_found : Option (List ℕ) → Bool
is_found none = false
is_found (some s) = true

-- WHITESPACE: blank, tab, carriage return, newline
pub is_white : ℕ → Bool
is_white c = is_found (strchr (32 ∷ 9 ∷ 13 ∷ 10 ∷ []) c)

-- SYMBOLS: < | > & ; ( )
pub is_symbol : ℕ → Bool
is_symbol c = is_found (strchr (60 ∷ 124 ∷ 62 ∷ 38 ∷ 59 ∷ 40 ∷ 41 ∷ []) c)

abbrev pub quote : ℕ
quote = 34

abbrev pub backquote : ℕ
backquote = 96

-- The loops of _gettoken are on fuel; the distance to the end of the string is enough.
-- `while (strchr(WHITESPACE, *s)) *s++ = 0;`
pub skip_white : ℕ → ℕ → Bytes → ℕ × Bytes
skip_white zero s m = (s, m)
skip_white (suc fuel) s m =
    let rest = skip_white fuel (s + 1) (update m s 0) in if is_white (m s) then rest else (s, m)

-- `while (*s && !stop(*s)) s++;`
pub scan : (ℕ → Bool) → ℕ → ℕ → Bytes → ℕ
scan stop zero s m = s
scan stop (suc fuel) s m =
    let rest = scan stop fuel (s + 1) m in if m s == 0 || stop (m s) then s else rest

-- What _gettoken returns, with *p1, *p2 and the buffer. Null pointers are `none`. The kinds are 0, 'w', 'f',
-- 'a', 'o', 'z' and the symbols.
pub record Token : Type 0 where
  pub kind : ℕ
  pub p1 : Option ℕ
  pub p2 : Option ℕ
  pub buf : Bytes

abbrev pub end_token : Bytes → Token
end_token m = record { kind = 0; p1 = none; p2 = none; buf = m }

pub quoted : ℕ → ℕ → Bytes → Token
quoted fuel s m =
    let e : ℕ = scan (λ c. c == quote) fuel (s + 1) m in
    record { kind = 119; p1 = some (s + 1); p2 = some (e + 1); buf = update m e 0 }

pub backquoted : ℕ → ℕ → Bytes → Token
backquoted fuel s m =
    let e : ℕ = scan (λ c. c == backquote) fuel (s + 1) (update m s 0) in
    record { kind = 102; p1 = some (s + 1); p2 = some (e + 1); buf = update (update m s 0) e 0 }

-- && || >>
pub is_double : ℕ → Bytes → Bool
is_double s m = m (s + 1) == m s && (m s == 38 || m s == 124 || m s == 62)

double_kind : ℕ → ℕ
double_kind c = if c == 38 then 97 else (if c == 124 then 111 else 122)

pub symbol : ℕ → Bytes → Token
symbol s m =
    if is_double s m
    then record {
      kind = double_kind (m s);
      p1 = some s;
      p2 = some (s + 2);
      buf = update m (s + 1) 0;
    }
    else record { kind = m s; p1 = some s; p2 = some (s + 1); buf = update m s 0 }

pub ends_word : ℕ → Bool
ends_word c = is_white c || is_symbol c

pub word : ℕ → ℕ → Bytes → Token
word fuel s m = record { kind = 119; p1 = some s; p2 = some (scan ends_word fuel s m); buf = m }

-- _gettoken past the white space
pub token_at : ℕ → ℕ → Bytes → Token
token_at fuel s m =
    if m s == quote
    then quoted fuel s m
    else (if m s == backquote
        then backquoted fuel s m
        else (if m s == 0
            then end_token m
            else (if is_symbol (m s) then symbol s m else word fuel s m)))

pub next_token : ℕ → ℕ → Bytes → Token
next_token fuel s m = token_at fuel (skip_white fuel s m).0 (skip_white fuel s m).1

-- _gettoken
pub gettoken_from : ℕ → Option ℕ → Bytes → Token
gettoken_from fuel none m = end_token m
gettoken_from fuel (some s) m = next_token fuel s m

-- gettoken(s, 0), which starts a string; the token that it reads is kept in the function's static variables.
pub start_tokens : ℕ → ℕ → Bytes → Token
start_tokens fuel s m = gettoken_from fuel (some s) m

-- gettoken(0, p1): the kept token is returned, and the next one is read.
pub gettoken : ℕ → Token → ℕ × (Option ℕ) × Token
gettoken fuel t = (t.kind, t.p1, gettoken_from fuel t.p2 t.buf)

-- The start of runcmd: the string ends at its first '#'.
pub cut_comment : ℕ → ℕ → Bytes → Bytes
cut_comment fuel s m = update m (scan (λ c. c == 35) fuel s m) 0

-- `jobId * 10 + (*s - '0')`, in 32 bits
pub parse_from : ℕ → List ℕ → ℕ
parse_from id [] = id
parse_from id (c ∷ s) = parse_from ((id * 10 + (c + 2 ^ 32 - 48)) % 2 ^ 32) s

pub parse_job_id : List ℕ → ℕ
parse_job_id s = parse_from 0 s

-- readline returns, or ends the shell as there is no more input.
pub data Line : Type 0 where
  returned : Bytes → List ℕ → Line
  exited : Line

abbrev pub is_erase : ℕ → Bool
is_erase c = c == 8 || c == 127

abbrev pub is_newline : ℕ → Bool
is_newline c = c == 13 || c == 10

-- The end of readline on a line that is too long
pub drop_line : ℕ → List ℕ → Bytes → Line
drop_line buf [] m = returned (update m buf 0) []
drop_line buf (c ∷ input) m =
    let rest = drop_line buf input (update m buf c) in
    if is_newline c then returned (update m buf 0) input else rest

-- After an erased character the loop looks at the byte two places back, or at the byte before the buffer.
abbrev pub looked_at : ℕ → ℕ → ℕ
looked_at buf i = if ltb 0 i then buf + i - 2 else buf - 1

-- The loop of readline at index `i` of the `n` bytes at `buf`, for the input that is left
pub readline_from : ℕ → ℕ → ℕ → List ℕ → Bytes → Line
readline_from buf n i [] m = if ltb i n then exited else drop_line buf [] m
readline_from buf n i (c ∷ input) m =
    let less = readline_from buf n (i - 1) input (update m (buf + i) c) in
    let more = readline_from buf n (i + 1) input (update m (buf + i) c) in
    if ltb i n
    then (if is_erase c
        then (if is_newline (update m (buf + i) c (looked_at buf i))
            then returned (update (update m (buf + i) c) (looked_at buf i) 0) input
            else less)
        else (if is_newline c
            then returned (update (update m (buf + i) c) (buf + i) 0) input
            else more))
    else drop_line buf (c ∷ input) m

pub readline : ℕ → ℕ → List ℕ → Bytes → Line
readline buf n input m = readline_from buf n 0 input m
