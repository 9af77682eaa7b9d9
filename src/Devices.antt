-- ===== src/Devices.antt =====
-- The read and write functions of krnl/dev/null.c, zero.c, random.c and ramdisk.c, on the memory that is
-- a function from addresses to bytes. Each gives the count that it returns.
mod Tests
use munt3os.Base.{
  ℕ, zero, suc, ◌+◌, ◌-◌, ◌*◌, ◌/◌, ◌%◌, ◌^◌, ◌≤◌, ◌<◌, min, max, ◌≡◌, refl, sym, ap, ap₂, ◌∙◌, ◌≢◌,
  ◌↔◌, ◌⊎◌, inl, inr, Bool, true, false, not, ◌&&◌, ◌||◌, Option, none, some, List, [], ◌∷◌, ◌++◌,
  map, append-nil, append_assoc, arith, ℕ_discrete, ltb, leb, ◌==◌, if◌then◌else◌, ltb→lt, lt→ltb,
  ltb→le, le→ltb, leb→le, ==_iff, ==_refl, suc-ne-zero, zero-lt-suc, Bool-cases, Option-cases,
  length, get_elem?, get_or, set, take, drop, replicate, length-append, length-set,
  length-replicate, length-take, length-drop, take_last, drop-nil, drop_all, take_all, drop-append,
  drop-drop, take_last-append, take_last-append_long, take_last_all, take-append-drop, get_or-set,
  get_or_ext, get_or-replicate, mod-wrap, u64, u32, u8, add_u64, sub_u64, add_u32, sub_u32, mul_u32,
  mul_u64, page_size, ℤ, pos, negsuc, sub_ℕ, neg,
}
use munt3os.Memory.{Mem, store, memset, memcpy_fast}

abbrev pub null_read : Mem → ℕ → ℕ → ℕ × Mem
null_read m size buffer = (0, m)

-- The write functions of the four devices ignore the bytes.
abbrev pub null_write : Mem → ℕ → ℕ → ℕ × Mem
null_write m size buffer = (size, m)

unfoldable pub zero_read : Mem → ℕ → ℕ → ℕ × Mem
unfolding memset
zero_read m size buffer = (size, memset m buffer 0 size)

-- `rand_byte`: the new state, and the byte.
unfoldable pub rand_byte : ℕ → ℕ × ℕ
rand_byte state = let next = add_u32 (mul_u32 state 1103515245) 12345 in (next, next / 2 ^ 16 % 256)

unfoldable pub random_from : Mem → ℕ → ℕ → ℕ → ℕ × Mem
unfolding rand_byte
random_from m buffer state zero = (state, m)
random_from m buffer state (suc n) =
    random_from (store m buffer (rand_byte state).1) (buffer + 1) (rand_byte state).0 n

-- `random_read`: the count, the new state and the memory.
unfoldable pub random_read : Mem → ℕ → ℕ → ℕ → ℕ × (ℕ × Mem)
unfolding random_from
random_read m state size buffer = (size, random_from m buffer state size)

-- `ramdisk_t`
pub record Ramdisk : Type 0 where
  pub base : ℕ
  pub size : ℕ

-- How many bytes `ramdisk_read` copies; the sum of offset and size wraps at 32 bits.
unfoldable pub ramdisk_count : Ramdisk → ℕ → ℕ → ℕ
ramdisk_count rd offset size =
    if leb rd.size offset
    then 0
    else if ltb rd.size (add_u32 offset size)
    then u32 (rd.size - offset)
    else size

unfoldable pub ramdisk_read : Ramdisk → Mem → ℕ → ℕ → ℕ → ℕ × Mem
unfolding ramdisk_count memcpy_fast
ramdisk_read rd m offset size buffer =
    let n = ramdisk_count rd offset size in
    if leb rd.size offset then (0, m) else (n, memcpy_fast m buffer (rd.base + offset) n)

-- As long as the sum of offset and size does not wrap, `ramdisk_read` copies what was asked for, or what
-- the disk has behind the offset if that is less.
pub ramdisk_count_lem :
    (rd : Ramdisk) (offset size : ℕ)
    → offset + size < 2 ^ 32
    → ramdisk_count rd offset size ≡ min size (rd.size - offset)
unfolding ramdisk_count
ramdisk_count_lem rd offset size h = ground (arith, h)
