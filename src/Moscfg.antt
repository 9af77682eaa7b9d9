-- ===== src/Moscfg.antt =====
-- krnl/util/moscfg.c: the boot configuration. A text is the list of its bytes; the pointers into it are what
-- is left from them on. All allocations succeed. A number that does not fit `int32_t`, which is undefined in
-- the source, is kept as it is.
pub mod Lines
mod Tests
use munt3os.Base.{
  ℕ, zero, suc, ◌+◌, ◌-◌, ◌*◌, ◌/◌, ◌%◌, ◌^◌, ◌≤◌, ◌<◌, min, max, ◌≡◌, refl, sym, ap, ap₂, ◌∙◌, ◌≢◌,
  ◌↔◌, ◌⊎◌, inl, inr, Bool, true, false, not, ◌&&◌, ◌||◌, Option, none, some, List, [], ◌∷◌, ◌++◌,
  map, append-nil, append_assoc, arith, ℕ_discrete, ltb, leb, ◌==◌, if◌then◌else◌, ltb→lt, lt→ltb,
  ltb→le, le→ltb, leb→le, ==_iff, ==_refl, suc-ne-zero, zero-lt-suc, Bool-cases, Option-cases,
  length, get_elem?, get_or, set, take, drop, replicate, length-append, length-set,
  length-replicate, length-take, length-drop, take_last, drop-nil, drop_all, take_all, drop-append,
  drop-drop, take_last-append, take_last-append_long, take_last_all, take-append-drop, get_or-set,
  get_or_ext, get_or-replicate, mod-wrap, u64, u32, u8, add_u64, sub_u64, add_u32, sub_u32, mul_u32,
  mul_u64, page_size, ℤ, pos, negsuc, sub_ℕ, neg,
}
use munt3os.Cmdline.{is_space, quote}
use munt3os.HashMap.{is_zero}
use munt3os.Strings.{strcmp}

-- `cfg_value_t`
pub data Value : Type 0 where
  cfg_int : ℤ → Value
  cfg_str : List ℕ → Value
  cfg_array : List ℤ → Value

-- `cfg_entry_t`
pub record Setting : Type 0 where
  pub name : List ℕ
  pub value : Value

unfoldable pub skip_ws : List ℕ → List ℕ
skip_ws [] = []
skip_ws (x ∷ xs) = if (x == 32) || ((x == 9) || (x == 13)) then skip_ws xs else x ∷ xs

unfoldable pub skip_to_eol : List ℕ → List ℕ
skip_to_eol [] = []
skip_to_eol (x ∷ xs) = if (x == 0) || (x == 10) then x ∷ xs else skip_to_eol xs

-- What stands before the first byte at which `stop` holds, and what from it on.
unfoldable pub until : (ℕ → Bool) → List ℕ → List ℕ × List ℕ
until stop [] = ([], [])
until stop (x ∷ xs) = let r = until stop xs in if stop x then ([], x ∷ xs) else (x ∷ r.0, r.1)

-- The loops that drop the spaces at both ends.
unfoldable pub drop_front : List ℕ → List ℕ
drop_front [] = []
drop_front (x ∷ xs) = if is_space x then drop_front xs else x ∷ xs

unfoldable pub drop_back : List ℕ → List ℕ
drop_back [] = []
drop_back (x ∷ xs) =
    let rest = drop_back xs in if is_space x && ltb (length rest) 1 then [] else x ∷ rest

abbrev pub trim : List ℕ → List ℕ
trim s = drop_back (drop_front s)

abbrev pub hex_digit : ℕ → Option ℕ
hex_digit c =
    if leb 48 c && leb c 57
    then some (c - 48)
    else if leb 97 c && leb c 102
    then some (c - 97 + 10)
    else if leb 65 c && leb c 70
    then some (c - 65 + 10)
    else none

abbrev pub digit_below : ℕ → ℕ → Option ℕ
digit_below base c = if leb 48 c && ltb c (48 + base) then some (c - 48) else none

-- The loop over the digits.
unfoldable pub number_from : ℕ → (ℕ → Option ℕ) → ℕ → List ℕ → Option ℕ
number_from base digit val [] = some val
number_from base digit val (c ∷ cs) = elim (digit c) [
  | none ↦ none
  | some d ↦ number_from base digit (val * base + d) cs
]

-- Behind the sign.
unfoldable pub parse_digits : List ℕ → Option ℕ
unfolding number_from
parse_digits [] = none
parse_digits (x ∷ []) = number_from 10 (digit_below 10) 0 (x ∷ [])
parse_digits (x ∷ y ∷ s) =
    if (x == 48) && ((y == 120) || (y == 88))
    then (if ltb (length s) 1 then none else number_from 16 hex_digit 0 s)
    else if x == 48
    then number_from 8 (digit_below 8) 0 (y ∷ s)
    else number_from 10 (digit_below 10) 0 (x ∷ y ∷ s)

abbrev pub map_some {ℓ k} : {A : Type ℓ} {B : Type k} → (A → B) → Option A → Option B
map_some f none = none
map_some f (some a) = some (f a)

abbrev pub parse_signed : List ℕ → Option ℤ
parse_signed [] = none
parse_signed (x ∷ xs) =
    if x == 45
    then map_some (λ n. neg (pos n)) (parse_digits xs)
    else if x == 43
    then map_some pos (parse_digits xs)
    else map_some pos (parse_digits (x ∷ xs))

unfoldable pub parse_int : List ℕ → Option ℤ
unfolding drop_front drop_back parse_digits
parse_int s = parse_signed (trim s)

abbrev pub behind : List ℕ → List ℕ
behind [] = []
behind (x ∷ xs) = xs

-- The items of an array, of which there are at most `n`.
unfoldable pub parse_items : ℕ → List ℕ → Option (List ℤ)
unfolding until parse_int
parse_items zero s = some []
parse_items (suc n) [] = some []
parse_items (suc n) (x ∷ xs) =
    let r = until (λ c. c == 44) (x ∷ xs) in
    let rest = parse_items n (behind r.1) in
    elim (parse_int r.0) [ none ↦ none | some v ↦ map_some (λ vs. v ∷ vs) rest ]

unfoldable pub parse_array : List ℕ → Option (List ℤ)
unfolding parse_items
parse_array s =
    let t = trim s in
    let u = drop 1 t in
    let last = length u - 1 in
    let inner = if get_or u last 0 == 93 then take last u else u in
    if get_or t 0 0 == 91 then parse_items (length inner) inner else none

unfoldable pub parse_str_value : List ℕ → List ℕ
parse_str_value s =
    let t = trim s in
    if leb 2 (length t) && ((get_or t 0 0 == quote) && (get_or t (length t - 1) 0 == quote))
    then drop 1 (take (length t - 1) t)
    else t

abbrev pub same_word : List ℕ → List ℕ → Bool
same_word a b = is_zero (strcmp a b)

-- `type_len == … && memcmp(…) == 0`
abbrev pub is_word : List ℕ → List ℕ → Bool
is_word a b = (length a == length b) && same_word a b

-- The value by the word for its type.
unfoldable pub parse_value : List ℕ → List ℕ → Option Value
unfolding parse_array parse_str_value
parse_value word s =
    if is_word word (105 ∷ 110 ∷ 116 ∷ [])
    then map_some cfg_int (parse_int s)
    else if is_word word (115 ∷ 116 ∷ 114 ∷ [])
    then some (cfg_str (parse_str_value s))
    else if is_word word (97 ∷ 114 ∷ 114 ∷ 97 ∷ 121 ∷ [])
    then map_some cfg_array (parse_array s)
    else none

unfoldable pub parse_line : List ℕ → Option Setting
unfolding skip_ws until parse_value
parse_line line =
    let r = until (λ c. (c == 58) || is_space c) (skip_ws line) in
    let colon = skip_ws r.1 in
    let w = until (λ c. (c == 61) || is_space c) (skip_ws (drop 1 colon)) in
    let equals = skip_ws w.1 in
    if ltb (length r.1) 1 || ltb (length r.0) 1
    then none
    else if not (get_or colon 0 0 == 58)
    then none
    else if not (get_or equals 0 0 == 61)
    then none
    else map_some (λ v. record { name = r.0; value = v }) (parse_value w.0 (drop 1 equals))

abbrev pub add_setting : Option Setting → List Setting → List Setting
add_setting none rest = rest
add_setting (some e) rest = e ∷ rest

abbrev pub is_comment : ℕ → Bool
is_comment c = (c == 35) || (c == 59)

-- A round of the loop of `cfg_parse_buf`, behind the spaces, and then the `loop`.
unfoldable pub parse_round : (List ℕ → List Setting) → List ℕ → List Setting
parse_round loop [] = []
parse_round loop (x ∷ xs) =
    let line = until (λ c. c == 10) (x ∷ xs) in
    if x == 10
    then loop xs
    else if is_comment x
    then loop (skip_to_eol (x ∷ xs))
    else add_setting (parse_line (until is_comment line.0).0) (loop (behind line.1))

-- The loop, for at most `n` rounds.
unfoldable pub parse_lines : ℕ → List ℕ → List Setting
unfolding parse_round
parse_lines zero p = []
parse_lines (suc n) p = parse_round (parse_lines n) (skip_ws p)

-- Every round takes a byte, but for one that stops at a 0 in a comment, and the next does.
unfoldable pub cfg_parse_buf : List ℕ → List Setting
unfolding parse_lines
cfg_parse_buf buf = parse_lines (2 * length buf + 1) buf

unfoldable pub cfg_get : List Setting → List ℕ → Option Setting
cfg_get [] name = none
cfg_get (e ∷ es) name = let rest = cfg_get es name in if same_word e.name name then some e else rest

unfoldable pub cfg_get_int : List Setting → List ℕ → ℤ → ℤ
unfolding cfg_get
cfg_get_int es name fallback = elim (cfg_get es name) [
  | none ↦ fallback
  | some e ↦ elim e.value [ cfg_int i ↦ i | cfg_str s ↦ fallback | cfg_array vs ↦ fallback ]
]

unfoldable pub cfg_get_str : List Setting → List ℕ → List ℕ → List ℕ
unfolding cfg_get
cfg_get_str es name fallback = elim (cfg_get es name) [
  | none ↦ fallback
  | some e ↦ elim e.value [ cfg_int i ↦ fallback | cfg_str s ↦ s | cfg_array vs ↦ fallback ]
]

unfoldable pub cfg_get_array : List Setting → List ℕ → Option (List ℤ)
unfolding cfg_get
cfg_get_array es name = elim (cfg_get es name) [
  | none ↦ none
  | some e ↦ elim e.value [ cfg_int i ↦ none | cfg_str s ↦ none | cfg_array vs ↦ some vs ]
]
