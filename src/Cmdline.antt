-- ===== src/Cmdline.antt =====
-- krnl/util/cmdline.c: the line that is typed and the arguments of a command. What the commands do and what
-- the terminal shows is left out.
pub mod Editing
pub mod Words
mod Tests
use munt3os.Base.{
  ℕ, zero, suc, ◌+◌, ◌-◌, ◌*◌, ◌/◌, ◌%◌, ◌^◌, ◌≤◌, ◌<◌, min, max, ◌≡◌, refl, sym, ap, ap₂, ◌∙◌, ◌≢◌,
  ◌↔◌, ◌⊎◌, inl, inr, Bool, true, false, not, ◌&&◌, ◌||◌, Option, none, some, List, [], ◌∷◌, ◌++◌,
  map, append-nil, append_assoc, arith, ℕ_discrete, ltb, leb, ◌==◌, if◌then◌else◌, ltb→lt, lt→ltb,
  ltb→le, le→ltb, leb→le, ==_iff, ==_refl, suc-ne-zero, zero-lt-suc, Bool-cases, Option-cases,
  length, get_elem?, get_or, set, take, drop, replicate, length-append, length-set,
  length-replicate, length-take, length-drop, take_last, drop-nil, drop_all, take_all, drop-append,
  drop-drop, take_last-append, take_last-append_long, take_last_all, take-append-drop, get_or-set,
  get_or_ext, get_or-replicate, mod-wrap, u64, u32, u8, add_u64, sub_u64, add_u32, sub_u32, mul_u32,
  mul_u64, page_size, ℤ, pos, negsuc, sub_ℕ, neg,
}
use munt3os.HashMap.{is_zero}
use munt3os.Strings.{c_str, strcmp}

-- `isspace` of krnl/cstdlib.h
abbrev pub is_space : ℕ → Bool
is_space c = (c == 32) || (c == 9)

-- `'"'`
abbrev pub quote : ℕ
quote = 34

unfoldable pub skip_spaces : List ℕ → List ℕ
skip_spaces [] = []
skip_spaces (x ∷ xs) = if is_space x then skip_spaces xs else x ∷ xs

-- The characters before the first at which `stop` holds, and those behind it.
unfoldable pub span : (ℕ → Bool) → List ℕ → List ℕ × List ℕ
span stop [] = ([], [])
span stop (x ∷ xs) = let r = span stop xs in if stop x then ([], xs) else (x ∷ r.0, r.1)

-- The argument at the front, and what follows it.
unfoldable pub arg_at : List ℕ → Option (List ℕ × List ℕ)
unfolding span
arg_at [] = none
arg_at (x ∷ xs) = some (if x == quote then span (λ c. c == quote) xs else span is_space (x ∷ xs))

-- The loop of `parse_and_execute`, for at most `n` more arguments.
unfoldable pub parse_from : ℕ → List ℕ → List (List ℕ)
unfolding skip_spaces arg_at
parse_from zero p = []
parse_from (suc n) p = elim (arg_at (skip_spaces p)) [ none ↦ [] | some r ↦ r.0 ∷ parse_from n r.1 ]

-- The `args` that `parse_and_execute` makes of the line; CMDLINE_MAXARGS is 64.
unfoldable pub parse_args : List ℕ → List (List ℕ)
unfolding parse_from
parse_args line = parse_from 64 (c_str line)

-- `buf`, of CMDLINE_BUFSIZE bytes, and `pos`, of `cmdline_run`.
pub record Line : Type 0 where
  pub buf : List ℕ
  pub at : ℕ

abbrev pub buffer_size : ℕ
buffer_size = 1024

-- `buf[pos++] = (char)c`, if there is room
unfoldable pub put_char : ℕ → Line → Line
put_char c l =
    if ltb (l.at + 1) buffer_size then record { buf = set l.buf l.at c; at = l.at + 1 } else l

unfoldable pub erase : Line → Line
erase l = if ltb 0 l.at then record l { at = l.at - 1 } else l

-- The line that is run, if one is.
unfoldable pub enter : Line → Option (List ℕ) × Line
enter l =
    let ended = set l.buf l.at 0 in
    (if ltb 0 l.at then some ended else none, record { buf = ended; at = 0 })

-- One round of the loop of `cmdline_run`, for what `getchar` returns.
unfoldable pub line_key : ℤ → Line → Option (List ℕ) × Line
unfolding put_char erase enter
line_key (negsuc n) l = if n == 0 then (none, l) else (none, put_char (255 - n % 256) l)
line_key (pos c) l =
    if c == 0
    then (none, l)
    else if (c == 13) || (c == 10)
    then enter l
    else if (c == 8) || (c == 127)
    then (none, erase l)
    else (none, put_char (c % 256) l)

-- `parse_and_execute` returns 1 for the command `exit`.
unfoldable pub is_exit : List (List ℕ) → Bool
is_exit [] = false
is_exit (a ∷ args) = is_zero (strcmp a (101 ∷ 120 ∷ 105 ∷ 116 ∷ []))

-- The arguments of the commands that are run, for the keys one after the other, to the end of the loop.
unfoldable pub cmdline_run : List ℤ → Line → List (List (List ℕ))
unfolding line_key parse_args is_exit
cmdline_run [] l = []
cmdline_run (k ∷ ks) l =
    let r = line_key k l in
    let rest = cmdline_run ks r.1 in
    elim r.0 [
      | none ↦ rest
      | some line ↦ let args = parse_args line in if is_exit args then args ∷ [] else args ∷ rest
    ]
