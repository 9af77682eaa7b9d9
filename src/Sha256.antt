-- ===== src/Sha256.antt =====
-- krnl/util/sha256.c on 32-bit words. A block is a list of bytes; the message is the list of its bytes.
pub mod Shape
mod Tests
use munt3os.Base.{
  ℕ, zero, suc, ◌+◌, ◌-◌, ◌*◌, ◌/◌, ◌%◌, ◌^◌, ◌≤◌, ◌<◌, min, max, ◌≡◌, refl, sym, ap, ap₂, ◌∙◌, ◌≢◌,
  ◌↔◌, ◌⊎◌, inl, inr, Bool, true, false, not, ◌&&◌, ◌||◌, Option, none, some, List, [], ◌∷◌, ◌++◌,
  map, append-nil, append_assoc, arith, ℕ_discrete, ltb, leb, ◌==◌, if◌then◌else◌, ltb→lt, lt→ltb,
  ltb→le, le→ltb, leb→le, ==_iff, ==_refl, suc-ne-zero, zero-lt-suc, Bool-cases, Option-cases,
  length, get_elem?, get_or, set, take, drop, replicate, length-append, length-set,
  length-replicate, length-take, length-drop, take_last, drop-nil, drop_all, take_all, drop-append,
  drop-drop, take_last-append, take_last-append_long, take_last_all, take-append-drop, get_or-set,
  get_or_ext, get_or-replicate, mod-wrap, u64, u32, u8, add_u64, sub_u64, add_u32, sub_u32, mul_u32,
  mul_u64, page_size, ℤ, pos, negsuc, sub_ℕ, neg,
}
use Prim.Native.Nat.{bit_and, bit_or, bit_xor}

-- `ROTR` and `SHR`
unfoldable pub rotr : ℕ → ℕ → ℕ
rotr x n = bit_or (x / 2 ^ n) (u32 (x * 2 ^ (32 - n)))

unfoldable pub choose : ℕ → ℕ → ℕ → ℕ
choose x y z = bit_xor (bit_and x y) (bit_and (2 ^ 32 - 1 - x) z)

unfoldable pub majority : ℕ → ℕ → ℕ → ℕ
majority x y z = bit_xor (bit_xor (bit_and x y) (bit_and x z)) (bit_and y z)

-- `S0` and `S1`
unfoldable pub big_sigma_0 : ℕ → ℕ
unfolding rotr
big_sigma_0 x = bit_xor (bit_xor (rotr x 2) (rotr x 13)) (rotr x 22)

unfoldable pub big_sigma_1 : ℕ → ℕ
unfolding rotr
big_sigma_1 x = bit_xor (bit_xor (rotr x 6) (rotr x 11)) (rotr x 25)

-- `G0` and `G1`
unfoldable pub small_sigma_0 : ℕ → ℕ
unfolding rotr
small_sigma_0 x = bit_xor (bit_xor (rotr x 7) (rotr x 18)) (x / 2 ^ 3)

unfoldable pub small_sigma_1 : ℕ → ℕ
unfolding rotr
small_sigma_1 x = bit_xor (bit_xor (rotr x 17) (rotr x 19)) (x / 2 ^ 10)

-- `K`
abbrev pub round_words : List ℕ
round_words =
    0x428a2f98 ∷ 0x71374491 ∷ 0xb5c0fbcf ∷ 0xe9b5dba5 ∷ 0x3956c25b ∷ 0x59f111f1 ∷ 0x923f82a4
    ∷ 0xab1c5ed5 ∷ 0xd807aa98 ∷ 0x12835b01 ∷ 0x243185be ∷ 0x550c7dc3 ∷ 0x72be5d74 ∷ 0x80deb1fe
    ∷ 0x9bdc06a7 ∷ 0xc19bf174 ∷ 0xe49b69c1 ∷ 0xefbe4786 ∷ 0x0fc19dc6 ∷ 0x240ca1cc ∷ 0x2de92c6f
    ∷ 0x4a7484aa ∷ 0x5cb0a9dc ∷ 0x76f988da ∷ 0x983e5152 ∷ 0xa831c66d ∷ 0xb00327c8 ∷ 0xbf597fc7
    ∷ 0xc6e00bf3 ∷ 0xd5a79147 ∷ 0x06ca6351 ∷ 0x14292967 ∷ 0x27b70a85 ∷ 0x2e1b2138 ∷ 0x4d2c6dfc
    ∷ 0x53380d13 ∷ 0x650a7354 ∷ 0x766a0abb ∷ 0x81c2c92e ∷ 0x92722c85 ∷ 0xa2bfe8a1 ∷ 0xa81a664b
    ∷ 0xc24b8b70 ∷ 0xc76c51a3 ∷ 0xd192e819 ∷ 0xd6990624 ∷ 0xf40e3585 ∷ 0x106aa070 ∷ 0x19a4c116
    ∷ 0x1e376c08 ∷ 0x2748774c ∷ 0x34b0bcb5 ∷ 0x391c0cb3 ∷ 0x4ed8aa4a ∷ 0x5b9cca4f ∷ 0x682e6ff3
    ∷ 0x748f82ee ∷ 0x78a5636f ∷ 0x84c87814 ∷ 0x8cc70208 ∷ 0x90befffa ∷ 0xa4506ceb ∷ 0xbef9a3f7
    ∷ 0xc67178f2 ∷ []

-- The word of four bytes, the first the highest.
unfoldable pub block_word : List ℕ → ℕ → ℕ
block_word block i =
    let byte : ℕ → ℕ = λ k. get_or block (i * 4 + k) 0 in
    bit_or (bit_or (bit_or (byte 0 * 2 ^ 24) (byte 1 * 2 ^ 16)) (byte 2 * 2 ^ 8)) (byte 3)

-- The first loop of `process_block`: words `i` and the following `n`.
unfoldable pub first_words : List ℕ → ℕ → ℕ → List ℕ
unfolding block_word
first_words block i zero = []
first_words block i (suc n) = block_word block i ∷ first_words block (i + 1) n

-- The second loop: `n` words more behind those of `w`.
unfoldable pub extend_words : List ℕ → ℕ → List ℕ
unfolding small_sigma_0 small_sigma_1
extend_words w zero = w
extend_words w (suc n) =
    let i = length w in
    let next =
      add_u32
        (add_u32 (add_u32 (small_sigma_1 (get_or w (i - 2) 0)) (get_or w (i - 7) 0))
          (small_sigma_0 (get_or w (i - 15) 0)))
        (get_or w (i - 16) 0) in
    extend_words (w ++ (next ∷ [])) n

-- The eight working variables, and the eight words of the hash.
pub record Regs : Type 0 where
  pub a : ℕ
  pub b : ℕ
  pub c : ℕ
  pub d : ℕ
  pub e : ℕ
  pub f : ℕ
  pub g : ℕ
  pub h : ℕ

unfoldable pub round : ℕ → ℕ → Regs → Regs
unfolding big_sigma_0 big_sigma_1 choose majority
round k w r =
    let t1 = add_u32 (add_u32 (add_u32 (add_u32 r.h (big_sigma_1 r.e)) (choose r.e r.f r.g)) k) w in
    let t2 = add_u32 (big_sigma_0 r.a) (majority r.a r.b r.c) in
    record {
      a = add_u32 t1 t2;
      b = r.a;
      c = r.b;
      d = r.c;
      e = add_u32 r.d t1;
      f = r.e;
      g = r.f;
      h = r.g;
    }

unfoldable pub rounds : List ℕ → List ℕ → Regs → Regs
unfolding round
rounds [] ws r = r
rounds (k ∷ ks) [] r = rounds ks [] (round k 0 r)
rounds (k ∷ ks) (w ∷ ws) r = rounds ks ws (round k w r)

unfoldable pub process_block : List ℕ → Regs → Regs
unfolding first_words extend_words rounds
process_block block h =
    let r = rounds round_words (extend_words (first_words block 0 16) 48) h in
    record {
      a = add_u32 h.a r.a;
      b = add_u32 h.b r.b;
      c = add_u32 h.c r.c;
      d = add_u32 h.d r.d;
      e = add_u32 h.e r.e;
      f = add_u32 h.f r.f;
      g = add_u32 h.g r.g;
      h = add_u32 h.h r.h;
    }

-- `n` blocks from the front of the bytes.
unfoldable pub process_blocks : ℕ → List ℕ → Regs → Regs
unfolding process_block
process_blocks zero bytes h = h
process_blocks (suc n) bytes h = process_blocks n (drop 64 bytes) (process_block (take 64 bytes) h)

abbrev pub initial_hash : Regs
initial_hash = record {
  a = 0x6a09e667;
  b = 0xbb67ae85;
  c = 0x3c6ef372;
  d = 0xa54ff53a;
  e = 0x510e527f;
  f = 0x9b05688c;
  g = 0x1f83d9ab;
  h = 0x5be0cd19;
}

-- The eight bytes of `bit_len`, the highest first.
unfoldable pub length_bytes : ℕ → List ℕ
length_bytes n =
    u8 (n / 2 ^ 56)
    ∷ u8 (n / 2 ^ 48)
    ∷ u8 (n / 2 ^ 40)
    ∷ u8 (n / 2 ^ 32)
    ∷ u8 (n / 2 ^ 24)
    ∷ u8 (n / 2 ^ 16)
    ∷ u8 (n / 2 ^ 8)
    ∷ u8 n
    ∷ []

-- Bytes stored from an index on.
unfoldable pub store_bytes : List ℕ → ℕ → List ℕ → List ℕ
store_bytes pad i [] = pad
store_bytes pad i (x ∷ xs) = store_bytes (set pad i x) (i + 1) xs

unfoldable pub pad_blocks : ℕ → ℕ
pad_blocks partial = if ltb partial 56 then 1 else 2

-- The array `pad`: the bytes that fill no block, 0x80, and the length at the end of the last block.
unfoldable pub padding : List ℕ → ℕ → List ℕ
unfolding length_bytes store_bytes pad_blocks
padding rest len =
    let pad1 = store_bytes (replicate 128 0) 0 rest in
    let pad2 = set pad1 (length rest) 0x80 in
    store_bytes pad2 (pad_blocks (length rest) * 64 - 8) (length_bytes (mul_u64 len 8))

unfoldable pub word_bytes : ℕ → List ℕ
word_bytes w = u8 (w / 2 ^ 24) ∷ u8 (w / 2 ^ 16) ∷ u8 (w / 2 ^ 8) ∷ u8 w ∷ []

unfoldable pub digest : Regs → List ℕ
unfolding word_bytes
digest r =
    word_bytes r.a
    ++ (word_bytes r.b
        ++ (word_bytes r.c
            ++ (word_bytes r.d
                ++ (word_bytes r.e ++ (word_bytes r.f ++ (word_bytes r.g ++ word_bytes r.h))))))

unfoldable pub sha256 : List ℕ → List ℕ
unfolding process_blocks padding pad_blocks digest
sha256 bytes =
    let len = length bytes in
    let full = len / 64 in
    let rest = drop (full * 64) bytes in
    let h = process_blocks full bytes initial_hash in
    digest (process_blocks (pad_blocks (len % 64)) (padding rest len) h)

-- `hex[n]`
unfoldable pub hex_digit : ℕ → ℕ
hex_digit n = if ltb n 10 then 48 + n else 87 + n

unfoldable pub sha256_to_hex : List ℕ → List ℕ
unfolding hex_digit
sha256_to_hex [] = 0 ∷ []
sha256_to_hex (x ∷ xs) = hex_digit (x / 16) ∷ hex_digit (x % 16) ∷ sha256_to_hex xs
