-- ===== src/Cmdline/Tests.antt =====
-- Lines and keys.
use munt3os.Base.{
  ℕ, ◌≡◌, refl, List, [], ◌∷◌, ◌++◌, map, arith, take, replicate, length-replicate, pos,
}
use munt3os.Cmdline.{
  Line, put_char, erase, enter, line_key, parse_from, parse_args, is_exit, cmdline_run, skip_spaces,
  arg_at, span,
}
use munt3os.Cmdline.Editing.{Shows, entered, commands, cmdline_run-entered}
use munt3os.Cmdline.Words.{Item, quoted, bare, value, IsLine, render, parse_args-render}
use munt3os.Strings.{c_str, strcmp}

-- `ls "a b"`
abbrev typed : List (List ℕ × Item)
typed = ([], bare (108 ∷ 115 ∷ [])) ∷ (9 ∷ [], quoted (97 ∷ 32 ∷ 98 ∷ [])) ∷ []

two_args : parse_args (render typed) ≡ (108 ∷ 115 ∷ []) ∷ (97 ∷ 32 ∷ 98 ∷ []) ∷ []
unfolding parse_args parse_from skip_spaces arg_at span c_str
two_args = refl

typed-IsLine : IsLine typed
typed-IsLine = (
  (
    tt,
    (
      (λ e. ground (arith, e)),
      ((refl, λ e. ground (arith, e)), ((refl, λ e. ground (arith, e)), tt)),
    ),
  ),
  (
    (
      (refl, tt),
      (
        (refl, λ e. ground (arith, e)),
        ((refl, λ e. ground (arith, e)), ((refl, λ e. ground (arith, e)), tt)),
      ),
    ),
    tt,
  ),
)

parse_args-render_example :
    parse_args (render typed ++ (0 ∷ 7 ∷ []))
    ≡ take 64 (map (λ (i : List ℕ × Item). value i.1) typed)
parse_args-render_example = parse_args-render typed (7 ∷ []) typed-IsLine

abbrev empty_line : Line
empty_line = record { buf = replicate 1024 0; at = 0 }

empty_line-Shows : Shows empty_line []
empty_line-Shows = record {
  size = length-replicate {A = ℕ} 1024 0;
  holds = refl;
  place = refl;
  fits = omega arith;
  plain = tt;
}

-- `lx`, backspace, `s`, return
abbrev keys : List ℕ
keys = 108 ∷ 120 ∷ 8 ∷ 115 ∷ 13 ∷ []

ls_run : cmdline_run (map pos keys) empty_line ≡ ((108 ∷ 115 ∷ []) ∷ []) ∷ []
unfolding cmdline_run line_key put_char erase enter parse_args is_exit strcmp parse_from skip_spaces
    arg_at span c_str
ls_run = refl

cmdline_run-entered_example : cmdline_run (map pos keys) empty_line ≡ commands (entered keys [])
cmdline_run-entered_example = cmdline_run-entered keys empty_line [] empty_line-Shows (
  (omega arith, omega arith),
  (
    (omega arith, omega arith),
    ((omega arith, omega arith), ((omega arith, omega arith), ((omega arith, omega arith), tt))),
  ),
)
