-- ===== src/Strings.antt =====
-- The string routines of krnl/cstdlib.c. A `char` array is a list of bytes; behind its end stands a 0,
-- so that a string ends at its first 0 or with its array. A write past the array changes nothing.
pub mod Compare
pub mod Splice
pub mod Append
mod Tests
use munt3os.Base.{
  ℕ, zero, suc, ◌+◌, ◌-◌, ◌*◌, ◌/◌, ◌%◌, ◌^◌, ◌≤◌, ◌<◌, min, max, ◌≡◌, refl, sym, ap, ap₂, ◌∙◌, ◌≢◌,
  ◌↔◌, ◌⊎◌, inl, inr, Bool, true, false, not, ◌&&◌, ◌||◌, Option, none, some, List, [], ◌∷◌, ◌++◌,
  map, append-nil, append_assoc, arith, ℕ_discrete, ltb, leb, ◌==◌, if◌then◌else◌, ltb→lt, lt→ltb,
  ltb→le, le→ltb, leb→le, ==_iff, ==_refl, suc-ne-zero, zero-lt-suc, Bool-cases, Option-cases,
  length, get_elem?, get_or, set, take, drop, replicate, length-append, length-set,
  length-replicate, length-take, length-drop, take_last, drop-nil, drop_all, take_all, drop-append,
  drop-drop, take_last-append, take_last-append_long, take_last_all, take-append-drop, get_or-set,
  get_or_ext, get_or-replicate, mod-wrap, u64, u32, u8, add_u64, sub_u64, add_u32, sub_u32, mul_u32,
  mul_u64, page_size, ℤ, pos, negsuc, sub_ℕ, neg,
}

unfoldable pub strlen : List ℕ → ℕ
strlen [] = 0
strlen (x ∷ xs) = if x == 0 then 0 else suc (strlen xs)

-- The bytes before the terminator.
unfoldable pub c_str : List ℕ → List ℕ
c_str [] = []
c_str (x ∷ xs) = if x == 0 then [] else x ∷ c_str xs

unfoldable pub strcmp : List ℕ → List ℕ → ℤ
strcmp [] [] = pos 0
strcmp [] (y ∷ ys) = sub_ℕ 0 y
strcmp (x ∷ xs) [] = sub_ℕ x 0
strcmp (x ∷ xs) (y ∷ ys) = if not (x == 0) && (x == y) then strcmp xs ys else sub_ℕ x y

unfoldable pub strncmp : List ℕ → List ℕ → ℕ → ℤ
strncmp xs ys zero = pos 0
strncmp [] [] (suc n) = pos 0
strncmp [] (y ∷ ys) (suc n) = sub_ℕ 0 y
strncmp (x ∷ xs) [] (suc n) = sub_ℕ x 0
strncmp (x ∷ xs) (y ∷ ys) (suc n) =
    if not (x == y) || ((x == 0) || (y == 0)) then sub_ℕ x y else strncmp xs ys n

-- The offset that `strchr` finds; the terminator counts when `c` is 0.
unfoldable pub strchr_from : List ℕ → ℕ → ℕ → Option ℕ
strchr_from [] c i = if c == 0 then some i else none
strchr_from (x ∷ xs) c i =
    let rest = strchr_from xs c (i + 1) in
    if x == 0 then (if c == 0 then some i else none) else if x == u8 c then some i else rest

unfoldable pub strchr : List ℕ → ℕ → Option ℕ
unfolding strchr_from
strchr str c = strchr_from str c 0

-- `dest[i] = src[i]` up to the terminator, which is stored too; the index where it stands.
unfoldable pub copy_str : List ℕ → List ℕ → ℕ → ℕ × List ℕ
copy_str dest [] i = (i, set dest i 0)
copy_str dest (x ∷ xs) i =
    let rest = copy_str (set dest i x) xs (i + 1) in if x == 0 then (i, set dest i 0) else rest

unfoldable pub strcpy : List ℕ → List ℕ → ℕ × List ℕ
unfolding copy_str
strcpy dest src = copy_str dest src 0

-- The second loop of `strncpy`.
unfoldable pub pad_zeros : List ℕ → ℕ → ℕ → List ℕ
pad_zeros dest i zero = dest
pad_zeros dest i (suc n) = pad_zeros (set dest i 0) (i + 1) n

unfoldable pub strncpy_from : List ℕ → List ℕ → ℕ → ℕ → List ℕ
unfolding pad_zeros
strncpy_from dest src i zero = dest
strncpy_from dest [] i (suc n) = pad_zeros dest i (suc n)
strncpy_from dest (x ∷ xs) i (suc n) =
    let rest = strncpy_from (set dest i x) xs (i + 1) n in
    if x == 0 then pad_zeros dest i (suc n) else rest

unfoldable pub strncpy : List ℕ → List ℕ → ℕ → List ℕ
unfolding strncpy_from
strncpy dest src n = strncpy_from dest src 0 n

unfoldable pub strcat : List ℕ → List ℕ → List ℕ
unfolding copy_str strlen
strcat dest src = (copy_str dest src (strlen dest)).1

unfoldable pub strncat_from : List ℕ → List ℕ → ℕ → ℕ → List ℕ
strncat_from dest src i zero = set dest i 0
strncat_from dest [] i (suc n) = set dest i 0
strncat_from dest (x ∷ xs) i (suc n) =
    let rest = strncat_from (set dest i x) xs (i + 1) n in if x == 0 then set dest i 0 else rest

unfoldable pub strncat : List ℕ → List ℕ → ℕ → List ℕ
unfolding strncat_from strlen
strncat dest src n = strncat_from dest src (strlen dest) n
