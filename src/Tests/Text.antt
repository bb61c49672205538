-- ===== src/Tests/Text.antt =====
-- lib/string.c on a memory whose byte at an address is the address.
use os_challenge_sudo_shell.Base.{ℕ, ◌≡◌, List, [], ◌∷◌, arith, inl}
use os_challenge_sudo_shell.Strings.{Bytes, memcpy}
use os_challenge_sudo_shell.Strings.Copy.{copied, memcpy-copied}

abbrev memory : Bytes
memory a = a

memcpy-copied_example : memcpy 101 205 10 memory 107 ≡ copied 101 205 10 memory 107
memcpy-copied_example = memcpy-copied 101 205 10 memory (inl (omega arith)) 107

abbrev word_ls : List ℕ
word_ls = 108 ∷ 115 ∷ []

abbrev word_l : List ℕ
word_l = 108 ∷ []
