-- ===== src/Bitmap/Laws.antt =====
-- The bitmap as a function from bits to Booleans.
use munt3os.Base.{
  ℕ, ◌*◌, ◌/◌, ◌%◌, ◌<◌, ◌≡◌, inl, inr, true, false, List, arith, ◌==◌, if◌then◌else◌, ==_iff,
  Bool-cases, length, get_or, set, get_or-set,
}
use munt3os.Bitmap.{bitmap_test, bitmap_set, bitmap_clear, set_byte, clear_byte}
use munt3os.Bitmap.Bytes.{set_byte_lem, clear_byte_lem}

-- Every cell of the array is a byte.
abbrev pub IsBytes : List ℕ → Type 0
IsBytes bm = (i : ℕ) → get_or bm i 0 < 256

IsBytes-set : (bm : List ℕ) (i b : ℕ) → i < length bm → b < 256 → IsBytes bm → IsBytes (set bm i b)
IsBytes-set bm i b h small bytes j = ground (arith, get_or-set bm i j b 0, bytes j)

-- Two bits of one byte are the same if they have the same place in it.
same_place : (i j : ℕ) → i / 8 ≡ j / 8 → (i % 8 == j % 8) ≡ (i == j)
same_place i j e = ground arith

other_byte : (i j : ℕ) → (i / 8 == j / 8) ≡ false → (i == j) ≡ false
other_byte i j e = ground arith

module _ (bm : List ℕ) (bit : ℕ) (inside : bit < 8 * length bm) (bytes : IsBytes bm) where
  abbrev cell : ℕ
  cell = get_or bm (bit / 8) 0

  pub bitmap_set-IsBytes : IsBytes (bitmap_set bm bit)
  unfolding bitmap_set
  bitmap_set-IsBytes =
      IsBytes-set bm (bit / 8) _ (omega arith)
        (set_byte_lem cell (bit % 8) 0 (bytes (bit / 8)) (omega arith) (omega arith)).0 bytes

  pub bitmap_clear-IsBytes : IsBytes (bitmap_clear bm bit)
  unfolding bitmap_clear
  bitmap_clear-IsBytes =
      IsBytes-set bm (bit / 8) _ (omega arith)
        (clear_byte_lem cell (bit % 8) 0 (bytes (bit / 8)) (omega arith) (omega arith)).0 bytes

  -- Setting a bit changes that bit only.
  pub bitmap_test-set :
      (j : ℕ) → bitmap_test (bitmap_set bm bit) j ≡ (if bit == j then true else bitmap_test bm j)
  unfolding bitmap_test bitmap_set
  bitmap_test-set j =
      let e =
        (set_byte_lem cell (bit % 8) (j % 8) (bytes (bit / 8)) (omega arith) (omega arith)).1 in
      rw (get_or-set bm (bit / 8) (j / 8) (set_byte cell (bit % 8)) 0 (omega arith))
        (elim (Bool-cases (bit / 8 == j / 8)) [
          | inl here ↦
              let at : bit / 8 ≡ j / 8 = (==_iff _ _).0 here in
              rw (here, e, same_place bit j at, ← at)
          | inr there ↦ rw (there, other_byte bit j there)
        ])

  pub bitmap_test-clear :
      (j : ℕ) → bitmap_test (bitmap_clear bm bit) j ≡ (if bit == j then false else bitmap_test bm j)
  unfolding bitmap_test bitmap_clear
  bitmap_test-clear j =
      let e =
        (clear_byte_lem cell (bit % 8) (j % 8) (bytes (bit / 8)) (omega arith) (omega arith)).1 in
      rw (get_or-set bm (bit / 8) (j / 8) (clear_byte cell (bit % 8)) 0 (omega arith))
        (elim (Bool-cases (bit / 8 == j / 8)) [
          | inl here ↦
              let at : bit / 8 ≡ j / 8 = (==_iff _ _).0 here in
              rw (here, e, same_place bit j at, ← at)
          | inr there ↦ rw (there, other_byte bit j there)
        ])
