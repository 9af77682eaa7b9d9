-- ===== src/Memory.antt =====
-- The block routines of krnl/cstdlib.c over the flat memory: a byte for every address. Blocks do not
-- reach past the end of the address space, so an address and an offset are added without a wrap.
pub mod Copy
pub mod Fast
mod Tests
use munt3os.Base.{
  ℕ, zero, suc, ◌+◌, ◌-◌, ◌*◌, ◌/◌, ◌%◌, ◌^◌, ◌≤◌, ◌<◌, min, max, ◌≡◌, refl, sym, ap, ap₂, ◌∙◌, ◌≢◌,
  ◌↔◌, ◌⊎◌, inl, inr, Bool, true, false, not, ◌&&◌, ◌||◌, Option, none, some, List, [], ◌∷◌, ◌++◌,
  map, append-nil, append_assoc, arith, ℕ_discrete, ltb, leb, ◌==◌, if◌then◌else◌, ltb→lt, lt→ltb,
  ltb→le, le→ltb, leb→le, ==_iff, ==_refl, suc-ne-zero, zero-lt-suc, Bool-cases, Option-cases,
  length, get_elem?, get_or, set, take, drop, replicate, length-append, length-set,
  length-replicate, length-take, length-drop, take_last, drop-nil, drop_all, take_all, drop-append,
  drop-drop, take_last-append, take_last-append_long, take_last_all, take-append-drop, get_or-set,
  get_or_ext, get_or-replicate, mod-wrap, u64, u32, u8, add_u64, sub_u64, add_u32, sub_u32, mul_u32,
  mul_u64, page_size, ℤ, pos, negsuc, sub_ℕ, neg,
}

abbrev pub Mem : Type 0
Mem = ℕ → ℕ

abbrev pub store : Mem → ℕ → ℕ → Mem
store m a v x = if x == a then v else m x

-- `for (i = …; i < n; i++) d[i] = s[i]`, with the rounds that are left.
unfoldable pub copy_up : Mem → ℕ → ℕ → ℕ → ℕ → Mem
copy_up m d s i zero = m
copy_up m d s i (suc n) = copy_up (store m (d + i) (m (s + i))) d s (i + 1) n

-- `for (i = n; i > 0; i--) d[i - 1] = s[i - 1]`.
unfoldable pub copy_down : Mem → ℕ → ℕ → ℕ → Mem
copy_down m d s zero = m
copy_down m d s (suc n) = copy_down (store m (d + n) (m (s + n))) d s n

unfoldable pub memcpy : Mem → ℕ → ℕ → ℕ → Mem
unfolding copy_up
memcpy m d s n = copy_up m d s 0 n

unfoldable pub fill_from : Mem → ℕ → ℕ → ℕ → ℕ → Mem
fill_from m d v i zero = m
fill_from m d v i (suc n) = fill_from (store m (d + i) (u8 v)) d v (i + 1) n

unfoldable pub memset : Mem → ℕ → ℕ → ℕ → Mem
unfolding fill_from
memset m d v n = fill_from m d v 0 n

unfoldable pub memmove : Mem → ℕ → ℕ → ℕ → Mem
unfolding copy_up copy_down
memmove m d s n = if ltb d s then copy_up m d s 0 n else if ltb s d then copy_down m d s n else m

unfoldable pub memcmp_from : Mem → ℕ → ℕ → ℕ → ℕ → ℤ
memcmp_from m p q i zero = pos 0
memcmp_from m p q i (suc n) =
    let rest = memcmp_from m p q (i + 1) n in
    if m (p + i) == m (q + i) then rest else sub_ℕ (m (p + i)) (m (q + i))

unfoldable pub memcmp : Mem → ℕ → ℕ → ℕ → ℤ
unfolding memcmp_from
memcmp m p q n = memcmp_from m p q 0 n

-- `*d64 = *s64`: eight bytes are read, then written.
unfoldable pub copy_word : Mem → ℕ → ℕ → Mem
copy_word m d s x = if leb d x && ltb x (d + 8) then m (s + (x - d)) else m x

-- `while (words--) *d64++ = *s64++`.
unfoldable pub copy_words : Mem → ℕ → ℕ → ℕ → Mem
unfolding copy_word
copy_words m d s zero = m
copy_words m d s (suc n) = copy_words (copy_word m d s) (d + 8) (s + 8) n

-- The four words of a block, and the loop over the blocks.
unfoldable pub copy_block : Mem → ℕ → ℕ → Mem
unfolding copy_word
copy_block m d s =
    let m1 = copy_word m d s in
    let m2 = copy_word m1 (d + 8) (s + 8) in
    let m3 = copy_word m2 (d + 16) (s + 16) in copy_word m3 (d + 24) (s + 24)

unfoldable pub copy_blocks : Mem → ℕ → ℕ → ℕ → Mem
unfolding copy_block
copy_blocks m d s zero = m
copy_blocks m d s (suc n) = copy_blocks (copy_block m d s) (d + 32) (s + 32) n

-- `while (n--) *d++ = *s++`.
unfoldable pub copy_bytes : Mem → ℕ → ℕ → ℕ → Mem
copy_bytes m d s zero = m
copy_bytes m d s (suc n) = copy_bytes (store m d (m s)) (d + 1) (s + 1) n

-- Behind the loop that aligns `d`: blocks, words, and the bytes that are left.
unfoldable pub copy_aligned : Mem → ℕ → ℕ → ℕ → Mem
unfolding copy_blocks copy_words copy_bytes
copy_aligned m d s n =
    let m1 = copy_blocks m d s (n / 32) in
    let d1 = d + n / 32 * 32 in
    let s1 = s + n / 32 * 32 in
    let n1 = n % 32 in
    let m2 = copy_words m1 d1 s1 (n1 / 8) in
    copy_bytes m2 (d1 + n1 / 8 * 8) (s1 + n1 / 8 * 8) (n1 % 8)

-- `while (((uintptr_t)d & 7) != 0 && n > 0)`, and what follows it.
unfoldable pub copy_align : Mem → ℕ → ℕ → ℕ → Mem
unfolding copy_aligned
copy_align m d s zero = copy_aligned m d s 0
copy_align m d s (suc n) =
    let next = copy_align (store m d (m s)) (d + 1) (s + 1) n in
    if d % 8 == 0 then copy_aligned m d s (suc n) else next

unfoldable pub memcpy_fast : Mem → ℕ → ℕ → ℕ → Mem
unfolding copy_align copy_bytes
memcpy_fast m d s n = if ltb n 8 then copy_bytes m d s n else copy_align m d s n
