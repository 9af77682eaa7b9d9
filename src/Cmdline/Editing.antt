-- ===== src/Cmdline/Editing.antt =====
-- The line editor against the text that it holds.
use munt3os.Base.{take-take}
use munt3os.Base.{
  ℕ, zero, suc, ◌+◌, ◌-◌, ◌%◌, ◌≤◌, ◌<◌, ◌≡◌, refl, sym, ap, ap₂, ◌∙◌, ◌≢◌, inl, inr, true, false,
  ◌&&◌, ◌||◌, Option, none, some, List, [], ◌∷◌, ◌++◌, map, arith, ltb, ◌==◌, if◌then◌else◌, ltb→lt,
  lt→ltb, ltb→le, le→ltb, Bool-cases, length, set, take, drop, length-append, length-set,
  length-take, take_all, pos,
}
use mathlib.Core.Path.{subst}
use munt3os.Strings.{c_str}
use munt3os.Cmdline.{
  Line, buffer_size, put_char, erase, enter, line_key, parse_from, parse_args, is_exit, cmdline_run,
}
use munt3os.Cmdline.Words.{NoZero, NoZero-append, c_str-append}

-- What a key does to the text of the line.
abbrev pub edited : ℕ → List ℕ → List ℕ
edited c text =
    if (c == 13) || (c == 10)
    then []
    else if (c == 8) || (c == 127)
    then take (length text - 1) text
    else if ltb (length text) 1023
    then text ++ (c ∷ [])
    else text

-- The lines that keys enter, where an empty one is not run.
abbrev pub entered : List ℕ → List ℕ → List (List ℕ)
entered [] text = []
entered (c ∷ cs) text =
    let rest = entered cs (edited c text) in
    if ((c == 13) || (c == 10)) && ltb 0 (length text) then text ∷ rest else rest

-- The lines that `cmdline_run` runs, as strings.
unfoldable pub run_lines : List ℕ → Line → List (List ℕ)
unfolding line_key
run_lines [] l = []
run_lines (c ∷ cs) l =
    let r = line_key (pos c) l in
    let rest = run_lines cs r.1 in elim r.0 [ none ↦ rest | some line ↦ c_str line ∷ rest ]

abbrev pub Keys : List ℕ → Type 0
Keys [] = Unit {0}
Keys (c ∷ cs) = ((0 < c) × (c < 256)) × Keys cs

-- The buffer holds the text, with room for its end.
pub record Shows (l : Line) (text : List ℕ) : Type 0 where
  pub size : length l.buf ≡ buffer_size
  pub holds : take l.at l.buf ≡ text
  pub place : length text ≡ l.at
  pub fits : l.at < buffer_size
  pub plain : NoZero text

module _ {ℓ} {A : Type ℓ} where
  take-set :
      (n : ℕ) (a : List A) (x : A) → n < length a → take (suc n) (set a n x) ≡ take n a ++ (x ∷ [])
  take-set n [] x h = absurd (omega (arith, h))
  take-set zero (y ∷ ys) x h = refl
  take-set (suc n) (y ∷ ys) x h = ap (λ t. y ∷ t) (take-set n ys x (omega (arith, h)))

  set-split :
      (n : ℕ) (a : List A) (x : A) → n < length a → set a n x ≡ take n a ++ (x ∷ drop (suc n) a)
  set-split n [] x h = absurd (omega (arith, h))
  set-split zero (y ∷ ys) x h = refl
  set-split (suc n) (y ∷ ys) x h = ap (λ t. y ∷ t) (set-split n ys x (omega (arith, h)))

NoZero-take : (n : ℕ) (a : List ℕ) → NoZero a → NoZero (take n a)
NoZero-take zero a h = tt
NoZero-take (suc n) [] h = tt
NoZero-take (suc n) (x ∷ xs) h = (h.0, NoZero-take n xs h.1)

module _ (l : Line) (text : List ℕ) (shows : Shows l text) where
  put_char-Shows :
      (c : ℕ)
      → c ≢ 0
      → Shows (put_char c l) (if ltb (length text) 1023 then text ++ (c ∷ []) else text)
  unfolding put_char
  put_char-Shows c used = elim (Bool-cases (ltb (l.at + 1) buffer_size)) [
    | inl room ↦
        let fits : ltb (length text) 1023 ≡ true =
          lt→ltb (length text) 1023 (omega (arith, shows.place, ltb→lt _ _ room)) in
        rw (put_char, room, fits)
          (record {
            size = length-set l.buf l.at c ∙ shows.size;
            holds =
                ap (λ (n : ℕ). take n (set l.buf l.at c))
                  (let e : l.at + 1 ≡ suc l.at = omega arith in e)
                ∙ (take-set l.at l.buf c (omega (arith, shows.size, shows.fits))
                    ∙ ap (λ t. t ++ (c ∷ [])) shows.holds);
            place = length-append text (c ∷ []) ∙ ap (λ (n : ℕ). n + 1) shows.place;
            fits = ltb→lt _ _ room;
            plain = NoZero-append text (c ∷ []) shows.plain (used, tt);
          })
    | inr full ↦
        let over : ltb (length text) 1023 ≡ false =
          le→ltb (length text) 1023 (omega (arith, shows.place, ltb→le _ _ full)) in
        rw (put_char, full, over) shows
  ]

  erase-Shows : Shows (erase l) (take (length text - 1) text)
  unfolding erase
  erase-Shows = elim (Bool-cases (ltb 0 l.at)) [
    | inl some_text ↦
        let low : l.at - 1 ≤ l.at = omega arith in
        let short : length text - 1 ≤ length text = omega arith in
        rw (erase, some_text)
          (record {
            size = shows.size;
            holds =
                sym (take-take (l.at - 1) l.at l.buf low)
                ∙ (ap (take (l.at - 1)) shows.holds
                    ∙ ap (λ (n : ℕ). take (n - 1) text) (sym shows.place));
            place = omega (arith, length-take (length text - 1) text, shows.place);
            fits = omega (arith, shows.fits);
            plain = NoZero-take (length text - 1) text shows.plain;
          })
    | inr none_left ↦
        let empty : length text - 1 ≡ length text =
          omega (arith, shows.place, ltb→le _ _ none_left) in
        rw (erase, none_left)
          (subst (Shows l) (sym (ap (λ (n : ℕ). take n text) empty ∙ take_all _ text (omega arith)))
            shows)
  ]

  enter-Shows : Shows (enter l).1 []
  unfolding enter
  enter-Shows = record {
    size = length-set l.buf l.at 0 ∙ shows.size;
    holds = refl;
    place = refl;
    fits = omega arith;
    plain = tt;
  }

  enter-line : c_str (set l.buf l.at 0) ≡ text
  enter-line =
      ap c_str (
        set-split l.at l.buf 0 (omega (arith, shows.size, shows.fits))
        ∙ ap (λ t. t ++ (0 ∷ drop (suc l.at) l.buf)) shows.holds)
      ∙ c_str-append text (drop (suc l.at) l.buf) shows.plain

  -- A key that does not end the line.
  key-Shows :
      (c : ℕ)
      → 0 < c
      → c < 256
      → ((c == 13) || (c == 10)) ≡ false
      → (line_key (pos c) l).0 ≡ none × Shows (line_key (pos c) l).1 (edited c text)
  unfolding line_key
  key-Shows c low high other =
      let used : (c == 0) ≡ false = ground (arith, low) in
      let byte : c % 256 ≡ c = omega (arith, high) in
      elim (Bool-cases ((c == 8) || (c == 127))) [
        | inl back ↦ rw (line_key, used, other, back) (refl, erase-Shows)
        | inr typed ↦
            rw (line_key, used, other, typed, byte)
              (refl, put_char-Shows c (λ z. ground (arith, used, z)))
      ]

  end-Shows :
      (c : ℕ)
      → 0 < c
      → ((c == 13) || (c == 10)) ≡ true
      → (line_key (pos c) l).0 ≡ (enter l).0 × Shows (line_key (pos c) l).1 (edited c text)
  unfolding line_key
  end-Shows c low ends =
      let used : (c == 0) ≡ false = ground (arith, low) in
      rw (line_key, used, ends) (refl, enter-Shows)

-- What the first key adds to the lines.
first_line : Option (List ℕ) → List (List ℕ) → List (List ℕ)
first_line none rest = rest
first_line (some line) rest = c_str line ∷ rest

run_lines-key :
    (c : ℕ) (cs : List ℕ) (l : Line)
    → run_lines (c ∷ cs) l ≡ first_line (line_key (pos c) l).0 (run_lines cs (line_key (pos c) l).1)
unfolding run_lines first_line
run_lines-key c cs l = choose (line_key (pos c) l).0 (run_lines cs (line_key (pos c) l).1)
  where
    choose :
        (o : Option (List ℕ)) (rest : List (List ℕ))
        → elim o [ none ↦ rest | some line ↦ c_str line ∷ rest ] ≡ first_line o rest
    choose none rest = refl
    choose (some line) rest = refl

first_line-enter :
    (l : Line) (text : List ℕ) (rest : List (List ℕ))
    → Shows l text
    → first_line (enter l).0 rest ≡ (if ltb 0 (length text) then text ∷ rest else rest)
unfolding first_line enter
first_line-enter l text rest shows = elim (Bool-cases (ltb 0 l.at)) [
  | inl some_text ↦
      let long : ltb 0 (length text) ≡ true = rw (shows.place) some_text in
      rw (enter, some_text, long) (ap (λ t. t ∷ rest) (enter-line l text shows))
  | inr none_left ↦
      let short : ltb 0 (length text) ≡ false = rw (shows.place) none_left in
      rw (enter, none_left, short)
]

run_lines-entered :
    (cs : List ℕ) (l : Line) (text : List ℕ)
    → Shows l text
    → Keys cs
    → run_lines cs l ≡ entered cs text
unfolding run_lines first_line
run_lines-entered [] l text shows keys = refl
run_lines-entered (c ∷ cs) l text shows keys = elim (Bool-cases ((c == 13) || (c == 10))) [
  | inl ends ↦
      let s = end-Shows l text shows c keys.0.0 ends in
      let rest : run_lines cs (line_key (pos c) l).1 ≡ entered cs (edited c text) =
        run_lines-entered cs (line_key (pos c) l).1 (edited c text) s.1 keys.1 in
      run_lines-key c cs l
      ∙ (ap₂ first_line s.0 rest
          ∙ (first_line-enter l text (entered cs (edited c text)) shows ∙ rw ends))
  | inr other ↦
      let s = key-Shows l text shows c keys.0.0 keys.0.1 other in
      let rest : run_lines cs (line_key (pos c) l).1 ≡ entered cs (edited c text) =
        run_lines-entered cs (line_key (pos c) l).1 (edited c text) s.1 keys.1 in
      run_lines-key c cs l ∙ (ap₂ first_line s.0 rest ∙ rw other)
]

-- The commands of lines of text, to the first that is `exit`.
abbrev pub commands : List (List ℕ) → List (List (List ℕ))
commands [] = []
commands (t ∷ ts) =
    let args = parse_from 64 t in
    let rest = commands ts in if is_exit args then args ∷ [] else args ∷ rest

cmdline_run-lines :
    (cs : List ℕ) (l : Line) → cmdline_run (map pos cs) l ≡ commands (run_lines cs l)
unfolding cmdline_run run_lines parse_args
cmdline_run-lines [] l = refl
cmdline_run-lines (c ∷ cs) l =
    choose (line_key (pos c) l).0 (cmdline_run (map pos cs) (line_key (pos c) l).1)
      (run_lines cs (line_key (pos c) l).1) (cmdline_run-lines cs (line_key (pos c) l).1)
  where
    choose :
        (o : Option (List ℕ)) (rest : List (List (List ℕ))) (lines : List (List ℕ))
        → rest ≡ commands lines
        → elim o [
          | none ↦ rest
          | some line ↦
              let args = parse_from 64 (c_str line) in
              if is_exit args then args ∷ [] else args ∷ rest
        ]
          ≡ commands (elim o [ none ↦ lines | some line ↦ c_str line ∷ lines ])
    choose none rest lines same = same
    choose (some line) rest lines same =
        ap
          (λ r.
            let args = parse_from 64 (c_str line) in if is_exit args then args ∷ [] else args ∷ r)
          same

-- From a line that shows a text on, for keys that are bytes other than 0: cmdline_run runs the commands of
-- the lines that the keys enter, to the first `exit`. A carriage return or a line feed enters the text,
-- unless it is empty, and clears it; backspace and delete take its last character; any other key is added,
-- if the text has less than 1023 characters.
pub cmdline_run-entered :
    (cs : List ℕ) (l : Line) (text : List ℕ)
    → Shows l text
    → Keys cs
    → cmdline_run (map pos cs) l ≡ commands (entered cs text)
cmdline_run-entered cs l text shows keys =
    cmdline_run-lines cs l ∙ ap commands (run_lines-entered cs l text shows keys)
