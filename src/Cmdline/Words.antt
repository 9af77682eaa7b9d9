-- ===== src/Cmdline/Words.antt =====
-- The arguments of a line, read back.
use munt3os.Base.{
  ℕ, zero, suc, ◌≡◌, refl, sym, ap, ◌∙◌, ◌≢◌, Bool, true, false, some, List, [], ◌∷◌, ◌++◌, map,
  append_assoc, arith, ◌==◌, take,
}
use munt3os.Strings.{c_str}
use munt3os.Cmdline.{is_space, quote, skip_spaces, span, arg_at, parse_from, parse_args}

-- An argument as it is typed: between quotes, or as it is.
pub data Item : Type 0 where
  quoted : List ℕ → Item
  bare : List ℕ → Item

abbrev pub value : Item → List ℕ
value (quoted a) = a
value (bare a) = a

abbrev pub shown : Item → List ℕ
shown (quoted a) = quote ∷ (a ++ (quote ∷ []))
shown (bare a) = a

-- `stop` holds at none of the characters, and none is 0.
abbrev pub Without : (ℕ → Bool) → List ℕ → Type 0
Without stop [] = Unit {0}
Without stop (x ∷ xs) = ((stop x ≡ false) × (x ≢ 0)) × Without stop xs

abbrev pub Spaces : List ℕ → Type 0
Spaces [] = Unit {0}
Spaces (x ∷ xs) = (is_space x ≡ true) × Spaces xs

-- What is between quotes has no quote; what is not is not empty, and has no space and no quote in front.
abbrev pub IsItem : Item → Type 0
IsItem (quoted a) = Without (λ c. c == quote) a
IsItem (bare []) = ⊥
IsItem (bare (x ∷ xs)) = (x ≢ quote) × Without is_space (x ∷ xs)

-- A line: the items with the spaces in front of each, and a space at least between two.
abbrev pub render : List (List ℕ × Item) → List ℕ
render [] = []
render (i ∷ []) = i.0 ++ shown i.1
render (i ∷ j ∷ is) = i.0 ++ (shown i.1 ++ (32 ∷ render (j ∷ is)))

abbrev pub IsLine : List (List ℕ × Item) → Type 0
IsLine [] = Unit {0}
IsLine (i ∷ is) = (Spaces i.0 × IsItem i.1) × IsLine is

skip_spaces_lem : (sp r : List ℕ) → Spaces sp → skip_spaces (sp ++ r) ≡ skip_spaces r
unfolding skip_spaces
skip_spaces_lem [] r h = refl
skip_spaces_lem (x ∷ xs) r h = rw (h.0) (skip_spaces_lem xs r h.1)

span-append :
    (stop : ℕ → Bool) (a r : List ℕ) (x : ℕ)
    → Without stop a
    → stop x ≡ true
    → span stop (a ++ (x ∷ r)) ≡ (a, r)
unfolding span
span-append stop [] r x h ends = rw ends
span-append stop (y ∷ ys) r x h ends = rw (h.0.0, span-append stop ys r x h.1 ends)

span_all : (stop : ℕ → Bool) (a : List ℕ) → Without stop a → span stop a ≡ (a, [])
unfolding span
span_all stop [] h = refl
span_all stop (y ∷ ys) h = rw (h.0.0, span_all stop ys h.1)

-- An item at the front, at the end of the line or before a space.
arg_at-last :
    (sp : List ℕ) (i : Item)
    → Spaces sp
    → IsItem i
    → arg_at (skip_spaces (sp ++ shown i)) ≡ some (value i, [])
unfolding arg_at skip_spaces
arg_at-last sp (quoted a) h item =
    ap arg_at (skip_spaces_lem sp (shown (quoted a)) h)
    ∙ ap (λ r. some r) (span-append (λ c. c == quote) a [] quote item refl)
arg_at-last sp (bare []) h item = absurd item
arg_at-last sp (bare (x ∷ xs)) h (unquoted, no_space) =
    let other : (x == quote) ≡ false = ground (arith, unquoted) in
    ap arg_at (skip_spaces_lem sp (x ∷ xs) h)
    ∙ rw (no_space.0.0, other) (ap (λ r. some r) (span_all is_space (x ∷ xs) no_space))

parse_from-space : (n : ℕ) (r : List ℕ) → parse_from n (32 ∷ r) ≡ parse_from n r
unfolding parse_from skip_spaces
parse_from-space zero r = refl
parse_from-space (suc n) r = refl

parse_from-arg :
    (n : ℕ) (p a r : List ℕ)
    → arg_at (skip_spaces p) ≡ some (a, r)
    → parse_from (suc n) p ≡ a ∷ parse_from n r
unfolding parse_from
parse_from-arg n p a r found = rw (parse_from, found)

parse_from-next :
    (n : ℕ) (sp : List ℕ) (i : Item) (r : List ℕ)
    → Spaces sp
    → IsItem i
    → parse_from (suc n) (sp ++ (shown i ++ (32 ∷ r))) ≡ value i ∷ parse_from n r
unfolding arg_at skip_spaces
parse_from-next n sp (quoted a) r h item =
    let tail : (a ++ (quote ∷ [])) ++ (32 ∷ r) ≡ a ++ (quote ∷ (32 ∷ r)) =
      append_assoc a (quote ∷ []) (32 ∷ r) in
    parse_from-arg n _ a (32 ∷ r) (
      ap arg_at (skip_spaces_lem sp (quote ∷ ((a ++ (quote ∷ [])) ++ (32 ∷ r))) h)
      ∙ ap (λ q. some q)
          (ap (span (λ c. c == quote)) tail
            ∙ span-append (λ c. c == quote) a (32 ∷ r) quote item refl))
    ∙ ap (λ t. a ∷ t) (parse_from-space n r)
parse_from-next n sp (bare []) r h item = absurd item
parse_from-next n sp (bare (x ∷ xs)) r h (unquoted, no_space) =
    let other : (x == quote) ≡ false = ground (arith, unquoted) in
    parse_from-arg n _ (x ∷ xs) r (
      ap arg_at (skip_spaces_lem sp (x ∷ (xs ++ (32 ∷ r))) h)
      ∙ rw (no_space.0.0, other)
          (ap (λ q. some q) (span-append is_space (x ∷ xs) r 32 no_space refl)))

parse_from-empty : (n : ℕ) → parse_from n [] ≡ []
unfolding parse_from arg_at skip_spaces
parse_from-empty zero = refl
parse_from-empty (suc n) = refl

parse_from-last :
    (n : ℕ) (sp : List ℕ) (i : Item)
    → Spaces sp
    → IsItem i
    → parse_from (suc n) (sp ++ shown i) ≡ value i ∷ []
unfolding parse_from
parse_from-last n sp i h item =
    parse_from-arg n (sp ++ shown i) (value i) [] (arg_at-last sp i h item)
    ∙ ap (λ t. value i ∷ t) (parse_from-empty n)

parse_from-render :
    (n : ℕ) (line : List (List ℕ × Item))
    → IsLine line
    → parse_from n (render line) ≡ take n (map (λ i. value i.1) line)
unfolding parse_from
parse_from-render zero line h = refl
parse_from-render (suc n) [] h = parse_from-empty (suc n)
parse_from-render (suc n) (i ∷ []) h =
    parse_from-last n i.0 i.1 h.0.0 h.0.1 ∙ ap (λ t. value i.1 ∷ t) (sym (take-nil n))
  where
    take-nil : (n : ℕ) → take n (map (λ (i : List ℕ × Item). value i.1) []) ≡ []
    take-nil zero = refl
    take-nil (suc n) = refl
parse_from-render (suc n) (i ∷ j ∷ is) h =
    parse_from-next n i.0 i.1 (render (j ∷ is)) h.0.0 h.0.1
    ∙ ap (λ t. value i.1 ∷ t) (parse_from-render n (j ∷ is) h.1)

abbrev pub NoZero : List ℕ → Type 0
NoZero [] = Unit {0}
NoZero (x ∷ xs) = (x ≢ 0) × NoZero xs

pub NoZero-append : (a b : List ℕ) → NoZero a → NoZero b → NoZero (a ++ b)
NoZero-append [] b h k = k
NoZero-append (x ∷ xs) b h k = (h.0, NoZero-append xs b h.1 k)

pub c_str-append : (a b : List ℕ) → NoZero a → c_str (a ++ (0 ∷ b)) ≡ a
unfolding c_str
c_str-append [] b h = refl
c_str-append (x ∷ xs) b h =
    let other : (x == 0) ≡ false = ground (arith, h.0) in
    rw other (ap (λ t. x ∷ t) (c_str-append xs b h.1))

Without-NoZero : (stop : ℕ → Bool) (a : List ℕ) → Without stop a → NoZero a
Without-NoZero stop [] h = tt
Without-NoZero stop (x ∷ xs) h = (h.0.1, Without-NoZero stop xs h.1)

Spaces-NoZero : (a : List ℕ) → Spaces a → NoZero a
Spaces-NoZero [] h = tt
Spaces-NoZero (x ∷ xs) h = ((λ z. ground (arith, h.0, z)), Spaces-NoZero xs h.1)

shown-NoZero : (i : Item) → IsItem i → NoZero (shown i)
shown-NoZero (quoted a) h = (
  (λ z. ground (arith, z)),
  NoZero-append a (quote ∷ []) (Without-NoZero (λ c. c == quote) a h)
      ((λ z. ground (arith, z)), tt),
)
shown-NoZero (bare []) h = absurd h
shown-NoZero (bare (x ∷ xs)) h = Without-NoZero is_space (x ∷ xs) h.1

render-NoZero : (line : List (List ℕ × Item)) → IsLine line → NoZero (render line)
render-NoZero [] h = tt
render-NoZero (i ∷ []) h =
    NoZero-append i.0 (shown i.1) (Spaces-NoZero i.0 h.0.0) (shown-NoZero i.1 h.0.1)
render-NoZero (i ∷ j ∷ is) h =
    NoZero-append i.0 (shown i.1 ++ (32 ∷ render (j ∷ is))) (Spaces-NoZero i.0 h.0.0) (
      NoZero-append (shown i.1) (32 ∷ render (j ∷ is)) (shown-NoZero i.1 h.0.1)
        ((λ z. ground (arith, z)), render-NoZero (j ∷ is) h.1))

-- Of a line in which each argument stands between quotes, and has none itself, or stands as it is, not empty,
-- without a space and with no quote in front, and which has spaces between two and any number in front,
-- parse_and_execute makes the list of these arguments, the first 64 if there are more.
pub parse_args-render :
    (line : List (List ℕ × Item)) (behind : List ℕ)
    → IsLine line
    → parse_args (render line ++ (0 ∷ behind)) ≡ take 64 (map (λ i. value i.1) line)
unfolding parse_args
parse_args-render line behind h =
    ap (parse_from 64) (c_str-append (render line) behind (render-NoZero line h))
    ∙ parse_from-render 64 line h
