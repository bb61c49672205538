-- ===== src/Tests/Lexer.antt =====
-- user/sh.c on short strings.
use os_challenge_sudo_shell.Base.{◌≡◌, refl, arith, some, [], ◌∷◌, ◌==◌, if◌then◌else◌}
use os_challenge_sudo_shell.Strings.{Bytes}
use os_challenge_sudo_shell.Shell.{gettoken_from, gettoken, word, scan, ends_word, readline}
use os_challenge_sudo_shell.Shell.Scan.{EndsAt}
use os_challenge_sudo_shell.Shell.Tokens.{gettoken_from-same}
use os_challenge_sudo_shell.Shell.Bounds.{Within, gettoken_from-Within}
use os_challenge_sudo_shell.Shell.Words.{Delivered, gettoken-Delivered}
use os_challenge_sudo_shell.Shell.Lines.{Agrees, edit, fits, readline-edit}

-- The string "a&&b"
abbrev text : Bytes
text i =
    if i == 0
    then 97
    else (if i == 1 then 38 else (if i == 2 then 38 else (if i == 3 then 98 else 0)))

text-EndsAt : EndsAt 4 0 text
text-EndsAt = (omega arith, refl, λ i a b. λ e. absurd (ground (arith, b, e)))

gettoken_from-same_example : gettoken_from 4 (some 0) text ≡ gettoken_from 100 (some 0) text
gettoken_from-same_example =
    gettoken_from-same 4 4 100 0 text text-EndsAt (omega arith) (omega arith)

gettoken_from-Within_example : Within 4 0 text (gettoken_from 100 (some 0) text)
gettoken_from-Within_example = gettoken_from-Within 4 100 0 text text-EndsAt (omega arith)

gettoken-Delivered_example :
    Delivered 0 (scan ends_word 100 0 text) text (gettoken 100 (word 100 0 text))
gettoken-Delivered_example = gettoken-Delivered 4 100 0 text text-EndsAt (omega arith)

-- "l", "x", an erased character, "s" and a newline
readline-edit_example :
    Agrees 64
      (edit [] (108 ∷ 120 ∷ 127 ∷ 115 ∷ 13 ∷ []))
      (readline 64 1024 (108 ∷ 120 ∷ 127 ∷ 115 ∷ 13 ∷ []) (λ a. 0))
unfolding fits
readline-edit_example =
    readline-edit 64 1024 (108 ∷ 120 ∷ 127 ∷ 115 ∷ 13 ∷ []) (λ a. 0) (omega arith) refl refl
