-- ===== src/Moscfg/Lines.antt =====
-- The loop over the text against its lines.
use munt3os.Base.{
  ℕ, zero, suc, ◌≤◌, ◌<◌, ◌≡◌, refl, sym, ap, ◌∙◌, inl, inr, Bool, false, ◌||◌, Option, none, List,
  [], ◌∷◌, arith, ◌==◌, if◌then◌else◌, Bool-cases, length,
}
use munt3os.Cmdline.Words.{NoZero}
use munt3os.Moscfg.{
  Setting, skip_ws, skip_to_eol, until, behind, parse_line, add_setting, is_comment, parse_round,
  parse_lines, cfg_parse_buf,
}

abbrev newline : ℕ → Bool
newline c = c == 10

-- The lines of a text.
abbrev pub push_front : ℕ → List (List ℕ) → List (List ℕ)
push_front x [] = (x ∷ []) ∷ []
push_front x (l ∷ ls) = (x ∷ l) ∷ ls

unfoldable pub split_lines : List ℕ → List (List ℕ)
split_lines [] = [] ∷ []
split_lines (x ∷ xs) =
    let rest = split_lines xs in if newline x then [] ∷ rest else push_front x rest

-- The setting of a line, what is behind a comment sign left out.
abbrev setting_from : List ℕ → Option Setting
setting_from [] = none
setting_from (x ∷ xs) = if is_comment x then none else parse_line (until is_comment (x ∷ xs)).0

unfoldable pub setting_of : List ℕ → Option Setting
setting_of line = setting_from (skip_ws line)

unfoldable pub settings : List (List ℕ) → List Setting
settings [] = []
settings (l ∷ ls) = add_setting (setting_of l) (settings ls)

abbrev more : List ℕ → List (List ℕ)
more [] = []
more (x ∷ xs) = split_lines xs

split_lines-until : (p : List ℕ) → split_lines p ≡ (until newline p).0 ∷ more (until newline p).1
unfolding split_lines until
split_lines-until [] = refl
split_lines-until (x ∷ xs) = elim (Bool-cases (x == 10)) [
  | inl here ↦ rw here
  | inr there ↦ rw there (ap (push_front x) (split_lines-until xs))
]

until-skip_ws :
    (p : List ℕ) → until newline (skip_ws p) ≡ (skip_ws (until newline p).0, (until newline p).1)
unfolding until skip_ws
until-skip_ws [] = refl
until-skip_ws (x ∷ xs) = elim (Bool-cases ((x == 32) || ((x == 9) || (x == 13)))) [
  | inl space ↦
      let other : (x == 10) ≡ false = ground (arith, space) in
      rw (space, other, space) (until-skip_ws xs)
  | inr text ↦ elim (Bool-cases (x == 10)) [
    | inl here ↦ rw (text, here)
    | inr there ↦ rw (text, there, text)
  ]
]

until-eol : (q : List ℕ) → NoZero q → skip_to_eol q ≡ (until newline q).1
unfolding until skip_to_eol
until-eol [] h = refl
until-eol (x ∷ xs) h =
    let used : (x == 0) ≡ false = ground (arith, h.0) in
    elim (Bool-cases (x == 10)) [
      | inl here ↦ rw (used, here)
      | inr there ↦ rw (used, there) (until-eol xs h.1)
    ]

length-until : (q : List ℕ) → length (until newline q).1 ≤ length q
unfolding until
length-until [] = omega arith
length-until (x ∷ xs) = elim (Bool-cases (x == 10)) [
  | inl here ↦ rw here (omega arith)
  | inr there ↦ rw there (omega (arith, length-until xs))
]

length-skip_ws : (p : List ℕ) → length (skip_ws p) ≤ length p
unfolding skip_ws
length-skip_ws [] = omega arith
length-skip_ws (x ∷ xs) = elim (Bool-cases ((x == 32) || ((x == 9) || (x == 13)))) [
  | inl space ↦ rw space (omega (arith, length-skip_ws xs))
  | inr text ↦ rw text (omega arith)
]

NoZero-skip_ws : (p : List ℕ) → NoZero p → NoZero (skip_ws p)
unfolding skip_ws
NoZero-skip_ws [] h = tt
NoZero-skip_ws (x ∷ xs) h = elim (Bool-cases ((x == 32) || ((x == 9) || (x == 13)))) [
  | inl space ↦ rw space (NoZero-skip_ws xs h.1)
  | inr text ↦ rw text h
]

NoZero-until : (q : List ℕ) → NoZero q → NoZero (until newline q).1
unfolding until
NoZero-until [] h = tt
NoZero-until (x ∷ xs) h = elim (Bool-cases (x == 10)) [
  | inl here ↦ rw here h
  | inr there ↦ rw there (NoZero-until xs h.1)
]

-- At the end of a line nothing is left of it.
settings-until :
    (q : List ℕ) → settings (split_lines (until newline q).1) ≡ settings (more (until newline q).1)
unfolding until split_lines settings setting_of skip_ws
settings-until [] = refl
settings-until (x ∷ xs) = elim (Bool-cases (x == 10)) [
  | inl here ↦ rw (here, here)
  | inr there ↦ rw there (settings-until xs)
]

parse_lines-nil : (n : ℕ) → parse_lines n [] ≡ []
unfolding parse_lines parse_round skip_ws
parse_lines-nil zero = refl
parse_lines-nil (suc n) = refl

-- The lines of a text, by its first.
settings-split :
    (p : List ℕ)
    → settings (split_lines p)
      ≡ add_setting (setting_of (until newline p).0) (settings (more (until newline p).1))
unfolding settings
settings-split p = ap settings (split_lines-until p)

behind-settings :
    (n : ℕ) (r : List ℕ)
    → ((t : List ℕ) → NoZero t → length t < n → parse_lines n t ≡ settings (split_lines t))
    → NoZero r
    → length r ≤ n
    → parse_lines n (behind r) ≡ settings (more r)
unfolding settings
behind-settings n [] rest h short = parse_lines-nil n
behind-settings n (x ∷ xs) rest h short = rest xs h.1 (omega (arith, short))

-- One round, on what is left behind the spaces.
parse_round_lem :
    (n : ℕ) (q : List ℕ)
    → ((t : List ℕ) → NoZero t → length t < n → parse_lines n t ≡ settings (split_lines t))
    → NoZero q
    → length q ≤ n
    → parse_round (parse_lines n) q
      ≡ add_setting (setting_from (until newline q).0) (settings (more (until newline q).1))
unfolding parse_round until settings
parse_round_lem n [] rest h short = refl
parse_round_lem n (x ∷ xs) rest h short = elim (Bool-cases (x == 10)) [
  | inl here ↦ rw here (rest xs h.1 (omega (arith, short)))
  | inr there ↦
      let used : (x == 0) ≡ false = ground (arith, h.0) in
      elim (Bool-cases (is_comment x)) [
        | inl comment ↦
            rw (there, comment)
              (ap (parse_lines n) (until-eol (x ∷ xs) h ∙ rw there)
                ∙ (rest (until newline xs).1 (NoZero-until xs h.1)
                      (omega (arith, short, length-until xs))
                    ∙ settings-until xs))
        | inr text ↦
            rw (there, text)
              (ap (add_setting _) (
                behind-settings n (until newline xs).1 rest (NoZero-until xs h.1)
                  (omega (arith, short, length-until xs))))
      ]
]

parse_lines-settings :
    (n : ℕ) (p : List ℕ) → NoZero p → length p < n → parse_lines n p ≡ settings (split_lines p)
unfolding parse_lines setting_of
parse_lines-settings zero p h short = absurd (omega (arith, short))
parse_lines-settings (suc n) p h short =
    let first = until-skip_ws p in
    parse_round_lem n (skip_ws p) (parse_lines-settings n) (NoZero-skip_ws p h)
      (omega (arith, short, length-skip_ws p))
    ∙ (ap (λ (r : List ℕ × List ℕ). add_setting (setting_from r.0) (settings (more r.1))) first
        ∙ sym (settings-split p))

-- Of a text without a 0, cfg_parse_buf makes the list of the settings of its lines, in their order, and so
-- its loop ends within its rounds. Of a line, what is behind # or ; is left out, and a line that has only
-- spaces before that has no setting.
pub cfg_parse_buf-settings :
    (text : List ℕ) → NoZero text → cfg_parse_buf text ≡ settings (split_lines text)
unfolding cfg_parse_buf
cfg_parse_buf-settings text h = parse_lines-settings _ text h (omega arith)
