-- ===== src/Numbers.antt =====
-- The number conversions of krnl/cstdlib.c, for a base from 2 to 36 and a buffer with room. A 64-bit
-- number has at most 64 digits, so the loop over the digits has fuel 64.
mod Tests
use munt3os.Base.{
  ℕ, zero, suc, ◌+◌, ◌-◌, ◌*◌, ◌/◌, ◌%◌, ◌^◌, ◌≤◌, ◌<◌, min, max, ◌≡◌, refl, sym, ap, ap₂, ◌∙◌, ◌≢◌,
  ◌↔◌, ◌⊎◌, inl, inr, Bool, true, false, not, ◌&&◌, ◌||◌, Option, none, some, List, [], ◌∷◌, ◌++◌,
  map, append-nil, append_assoc, arith, ℕ_discrete, ltb, leb, ◌==◌, if◌then◌else◌, ltb→lt, lt→ltb,
  ltb→le, le→ltb, leb→le, ==_iff, ==_refl, suc-ne-zero, zero-lt-suc, Bool-cases, Option-cases,
  length, get_elem?, get_or, set, take, drop, replicate, length-append, length-set,
  length-replicate, length-take, length-drop, take_last, drop-nil, drop_all, take_all, drop-append,
  drop-drop, take_last-append, take_last-append_long, take_last_all, take-append-drop, get_or-set,
  get_or_ext, get_or-replicate, mod-wrap, u64, u32, u8, add_u64, sub_u64, add_u32, sub_u32, mul_u32,
  mul_u64, page_size, ℤ, pos, negsuc, sub_ℕ, neg,
}
use munt3os.Strings.{strlen}

abbrev pub digit_char : ℕ → ℕ
digit_char r = if ltb 9 r then (r - 10) + 65 else r + 48

-- The `do { ... } while (i > 0)` loop: the digits from the lowest on.
unfoldable pub digits : ℕ → ℕ → ℕ → List ℕ
digits zero i base = []
digits (suc n) i base =
    let rest = digits n (i / base) base in
    digit_char (i % base) ∷ (if i / base == 0 then [] else rest)

-- The swaps of `reverse_str`, for at most `n` rounds.
unfoldable pub swap_ends : ℕ → ℕ → ℕ → List ℕ → List ℕ
swap_ends zero start end str = str
swap_ends (suc n) start end str =
    let swapped = set (set str start (get_or str end 0)) end (get_or str start 0) in
    let rest = swap_ends n (start + 1) (end - 1) swapped in if ltb start end then rest else str

unfoldable pub reverse_str : List ℕ → List ℕ
unfolding swap_ends strlen
reverse_str str = swap_ends (strlen str) 0 (strlen str - 1) str

unfoldable pub uint_to_str : ℕ → ℕ → List ℕ
unfolding digits reverse_str
uint_to_str i base = reverse_str (digits 64 i base ++ (0 ∷ []))

-- For a number above the least one of 64 bits, whose negation overflows.
unfoldable pub int_to_str : ℤ → ℕ → List ℕ
unfolding digits reverse_str
int_to_str (pos n) base = reverse_str (digits 64 n base ++ (0 ∷ []))
int_to_str (negsuc n) base = reverse_str (digits 64 (suc n) base ++ (45 ∷ 0 ∷ []))

-- The number that decimal digits stand for, from the lowest on.
abbrev pub decimal_value : List ℕ → ℕ
decimal_value [] = 0
decimal_value (d ∷ ds) = (d - 48) + 10 * decimal_value ds

-- In base 10, `n` rounds of the loop give digits that stand for the number, if it is below 2 ^ n.
pub decimal_value-digits : (n i : ℕ) → i < 2 ^ n → decimal_value (digits n i 10) ≡ i
unfolding digits
decimal_value-digits zero i h = omega (arith, h)
decimal_value-digits (suc n) i h =
    let half : i / 10 < 2 ^ n = omega (arith, h) in
    let rest = decimal_value-digits n (i / 10) half in
    elim (Bool-cases (i / 10 == 0)) [
      | inl last ↦ rw last (ground (arith, last))
      | inr more ↦ rw (more, rest) (ground (arith, more))
    ]
