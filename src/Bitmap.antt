-- ===== src/Bitmap.antt =====
-- BITMAP_SET, BITMAP_CLEAR and BITMAP_TEST of krnl/mem/pmm.c: one bit for each page frame, eight to
-- a byte, the low bit first.
mod Bytes
pub mod Laws
pub mod Count
use munt3os.Base.{
  ℕ, zero, suc, ◌+◌, ◌-◌, ◌*◌, ◌/◌, ◌%◌, ◌^◌, ◌≤◌, ◌<◌, min, max, ◌≡◌, refl, sym, ap, ap₂, ◌∙◌, ◌≢◌,
  ◌↔◌, ◌⊎◌, inl, inr, Bool, true, false, not, ◌&&◌, ◌||◌, Option, none, some, List, [], ◌∷◌, ◌++◌,
  map, append-nil, append_assoc, arith, ℕ_discrete, ltb, leb, ◌==◌, if◌then◌else◌, ltb→lt, lt→ltb,
  ltb→le, le→ltb, leb→le, ==_iff, ==_refl, suc-ne-zero, zero-lt-suc, Bool-cases, Option-cases,
  length, get_elem?, get_or, set, take, drop, replicate, length-append, length-set,
  length-replicate, length-take, length-drop, take_last, drop-nil, drop_all, take_all, drop-append,
  drop-drop, take_last-append, take_last-append_long, take_last_all, take-append-drop, get_or-set,
  get_or_ext, get_or-replicate, mod-wrap, u64, u32, u8, add_u64, sub_u64, add_u32, sub_u32, mul_u32,
  mul_u64, page_size,
}
use Prim.Native.Nat.{bit_and, bit_or}

-- `(1 << k)`, and its complement in a byte.
abbrev pub mask : ℕ → ℕ
mask k = 2 ^ k

unfoldable pub test_byte : ℕ → ℕ → Bool
test_byte b k = not (bit_and b (mask k) == 0)

unfoldable pub set_byte : ℕ → ℕ → ℕ
set_byte b k = bit_or b (mask k)

unfoldable pub clear_byte : ℕ → ℕ → ℕ
clear_byte b k = bit_and b (255 - mask k)

unfoldable pub bitmap_test : List ℕ → ℕ → Bool
bitmap_test bm bit = test_byte (get_or bm (bit / 8) 0) (bit % 8)

unfoldable pub bitmap_set : List ℕ → ℕ → List ℕ
bitmap_set bm bit = set bm (bit / 8) (set_byte (get_or bm (bit / 8) 0) (bit % 8))

unfoldable pub bitmap_clear : List ℕ → ℕ → List ℕ
bitmap_clear bm bit = set bm (bit / 8) (clear_byte (get_or bm (bit / 8) 0) (bit % 8))
