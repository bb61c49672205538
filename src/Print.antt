-- ===== src/Print.antt =====
-- lib/print.c: what vprintfmt and its helpers pass to the output.
pub mod Digits
pub mod Numbers
pub mod Formats
use os_challenge_sudo_shell.Base.{
  ℕ, zero, suc, ◌+◌, ◌-◌, ◌*◌, ◌/◌, ◌%◌, ◌^◌, ◌≡◌, Bool, true, false, not, ◌&&◌, ◌||◌, Option, none,
  some, List, [], ◌∷◌, ◌++◌, ltb, leb, ◌==◌, if◌then◌else◌, update,
}
use os_challenge_sudo_shell.Strings.{Bytes, strlen}

-- `n` blanks
pub blanks : ℕ → List ℕ
blanks zero = []
blanks (suc n) = 32 ∷ blanks n

pub print_char : ℕ → ℕ → Bool → List ℕ
print_char c length ladjust =
    let l : ℕ = if ltb length 1 then 1 else length in
    if ladjust then c ∷ blanks (l - 1) else blanks (l - 1) ++ (c ∷ [])

pub print_str : List ℕ → ℕ → Bool → List ℕ
print_str s length ladjust =
    let l : ℕ = if ltb length (strlen s) then strlen s else length in
    if ladjust then s ++ blanks (l - strlen s) else blanks (l - strlen s) ++ s

-- The character of a digit
abbrev pub digit_char : Bool → ℕ → ℕ
digit_char upcase d = if leb d 9 then 48 + d else (if upcase then 65 + d - 10 else 97 + d - 10)

-- The do loop of print_num from place `p` of the buffer on; the fuel is the number, as each round divides it.
pub store_digits : ℕ → ℕ → ℕ → Bool → ℕ → Bytes → ℕ × Bytes
store_digits zero u base upcase p m = (p + 1, update m p (digit_char upcase (u % base)))
store_digits (suc fuel) u base upcase p m =
    let rest =
      store_digits fuel (u / base) base upcase (p + 1)
        (update m p (digit_char upcase (u % base))) in
    if u / base == 0 then (p + 1, update m p (digit_char upcase (u % base))) else rest

-- `for (i = from; i < from + count; i++) buf[i] = c`
pub pad : ℕ → ℕ → ℕ → Bytes → Bytes
pad zero i c m = m
pad (suc count) i c m = pad count (i + 1) c (update m i c)

-- The loop that reverses the buffer between two places. The fuel is their distance.
pub swap_ends : ℕ → ℕ → ℕ → Bytes → Bytes
swap_ends zero begin end m = m
swap_ends (suc fuel) begin end m =
    let rest =
      swap_ends fuel (begin + 1) (end - 1) (update (update m begin (m end)) end (m begin)) in
    if ltb begin end then rest else m

-- The sign, behind the digits
pub put_sign : Bool → ℕ × Bytes → ℕ × Bytes
put_sign false (p, m) = (p, m)
put_sign true (p, m) = (p + 1, update m p 45)

-- The padding up to `length`
pub add_padding : Bool → Bool → ℕ → ℕ → ℕ → Bytes → Bytes
add_padding neg ladjust padc actual length m =
    let c : ℕ = if ladjust then 32 else padc in
    if neg && (not ladjust && c == 48)
    then update (pad (length - actual) (actual - 1) c m) (length - 1) 45
    else pad (length - actual) actual c m

abbrev pub at_least : ℕ → ℕ → ℕ
at_least length actual = if ltb length actual then actual else length

pub finish_num : Bool → ℕ → Bool → ℕ → ℕ × Bytes → ℕ × Bytes
finish_num neg length ladjust padc (actual, m) =
    let l : ℕ = at_least length actual in
    let end : ℕ = if ladjust then actual - 1 else l - 1 in
    (l, swap_ends end 0 end (add_padding neg ladjust padc actual l m))

-- print_num, with the length and the buffer that it passes to the output. The buffer's bytes are not set before.
pub print_num : ℕ → ℕ → Bool → ℕ → Bool → ℕ → Bool → Bytes → ℕ × Bytes
print_num u base neg length ladjust padc upcase m =
    finish_num neg length ladjust padc (put_sign neg (store_digits u u base upcase 0 m))

-- The `count` bytes of the buffer from `i` on
pub text_of : ℕ → ℕ → Bytes → List ℕ
text_of zero i m = []
text_of (suc count) i m = m i ∷ text_of count (i + 1) m

-- The arguments of vprintfmt: 32-bit words and strings
pub data Arg : Type 0 where
  word : ℕ → Arg
  text : List ℕ → Arg

-- What stands between '%' and the letter
pub record Spec : Type 0 where
  pub ladjust : Bool
  pub padc : ℕ
  pub width : ℕ

-- The string up to the next '%', and the rest
pub plain : List ℕ → List ℕ
plain [] = []
plain (c ∷ fmt) = if c == 37 then [] else c ∷ plain fmt

pub after_plain : List ℕ → List ℕ
after_plain [] = []
after_plain (c ∷ fmt) = if c == 37 then c ∷ fmt else after_plain fmt

-- `if (*fmt == c) fmt++`
pub has_head : ℕ → List ℕ → Bool
has_head c [] = false
has_head c (d ∷ fmt) = d == c

pub skip_head : ℕ → List ℕ → List ℕ
skip_head c [] = []
skip_head c (d ∷ fmt) = if d == c then fmt else d ∷ fmt

abbrev pub is_digit : ℕ → Bool
is_digit c = leb 48 c && leb c 57

pub read_width : ℕ → List ℕ → ℕ
read_width w [] = w
read_width w (c ∷ fmt) = if is_digit c then read_width (w * 10 + (c - 48)) fmt else w

pub skip_width : List ℕ → List ℕ
skip_width [] = []
skip_width (c ∷ fmt) = if is_digit c then skip_width fmt else c ∷ fmt

-- A number, by its base, whether it is signed, and the case of its digits. A long is as wide as an int.
pub number : ℕ → Bool → Bool → Spec → ℕ → List ℕ
number base signed upcase f num =
    let neg : Bool = signed && leb (2 ^ 31) num in
    let u : ℕ = if neg then 2 ^ 32 - num else num in
    let r : ℕ × Bytes = print_num u base neg f.width f.ladjust f.padc upcase (λ i. 0) in
    text_of r.0 0 r.1

-- The output for an argument; a missing argument, or one of another kind, is undefined.
pub convert_word : ℕ → Spec → Option Arg → Option (List ℕ)
convert_word c f (some (word n)) =
    if c == 98
    then some (number 2 false false f n)
    else (if c == 100 || c == 68
        then some (number 10 true false f n)
        else (if c == 111 || c == 79
            then some (number 8 false false f n)
            else (if c == 117 || c == 85
                then some (number 10 false false f n)
                else (if c == 120
                    then some (number 16 false false f n)
                    else (if c == 88
                        then some (number 16 false true f n)
                        else some (print_char (n % 256) f.width f.ladjust))))))
convert_word c f _ = none

pub convert_text : Spec → Option Arg → Option (List ℕ)
convert_text f (some (text s)) = some (print_str s f.width f.ladjust)
convert_text f _ = none

-- Letters that take a word: b d D o O u U x X c
pub takes_word : ℕ → Bool
takes_word c =
    c == 98
    || (c == 100
        || (c == 68
            || (c == 111
                || (c == 79 || (c == 117 || (c == 85 || (c == 120 || (c == 88 || c == 99))))))))

pub first_arg : List Arg → Option Arg
first_arg [] = none
first_arg (a ∷ args) = some a

pub other_args : List Arg → List Arg
other_args [] = []
other_args (a ∷ args) = args

abbrev pub put_before : List ℕ → Option (List ℕ) → Option (List ℕ)
put_before s none = none
put_before s (some t) = some (s ++ t)

pub put_both : Option (List ℕ) → Option (List ℕ) → Option (List ℕ)
put_both none t = none
put_both (some s) t = put_before s t

-- The switch at the letter, where `next` is the rest of the loop. Without a letter the string has ended.
pub convert : (List ℕ → List Arg → Option (List ℕ)) → Spec → List ℕ → List Arg → Option (List ℕ)
convert next f [] args = next [] args
convert next f (c ∷ fmt) args =
    if takes_word c
    then put_both (convert_word c f (first_arg args)) (next fmt (other_args args))
    else (if c == 115
        then put_both (convert_text f (first_arg args)) (next fmt (other_args args))
        else put_before (c ∷ []) (next fmt args))

-- From the character behind '%' to the letter
pub directive : (List ℕ → List Arg → Option (List ℕ)) → List ℕ → List Arg → Option (List ℕ)
directive next fmt args =
    let a : List ℕ = skip_head 45 fmt in
    let b : List ℕ = skip_head 48 a in
    convert next
      (record {
        ladjust = has_head 45 fmt;
        padc = if has_head 48 a then 48 else 32;
        width = read_width 0 b;
      })
      (skip_head 108 (skip_width b)) args

pub after_text : (List ℕ → List Arg → Option (List ℕ)) → List ℕ → List Arg → Option (List ℕ)
after_text next [] args = some []
after_text next (c ∷ fmt) args = directive next fmt args

-- The loop of vprintfmt; the fuel is the length of the format, as each round but the last passes a '%'.
pub format_from : ℕ → List ℕ → List Arg → Option (List ℕ)
format_from zero fmt args = some (plain fmt)
format_from (suc fuel) fmt args =
    put_before (plain fmt) (after_text (format_from fuel) (after_plain fmt) args)

pub vprintfmt : List ℕ → List Arg → Option (List ℕ)
vprintfmt fmt args = format_from (strlen fmt) fmt args
