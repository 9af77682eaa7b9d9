-- ===== src/Sha256/Shape.antt =====
-- The digest is 32 bytes, and its hexadecimal form says which.
use munt3os.Base.{
  ℕ, ◌+◌, ◌-◌, ◌*◌, ◌/◌, ◌%◌, ◌<◌, ◌≡◌, refl, ap₂, List, [], ◌∷◌, ◌++◌, append-nil, arith, ltb,
  if◌then◌else◌, length, drop,
}
use mathlib.Core.Path.{subst}
use munt3os.Sha256.{
  Regs, word_bytes, digest, sha256, hex_digit, sha256_to_hex, process_blocks, pad_blocks, padding,
  initial_hash,
}

abbrev pub AllBytes : List ℕ → Type 0
AllBytes [] = Unit {0}
AllBytes (x ∷ xs) = (x < 256) × AllBytes xs

-- The value of a digit, and the bytes of a hexadecimal string.
abbrev pub digit_value : ℕ → ℕ
digit_value c = if ltb c 58 then c - 48 else c - 87

abbrev pub from_hex : List ℕ → List ℕ
from_hex [] = []
from_hex (x ∷ []) = []
from_hex (x ∷ (y ∷ rest)) = (digit_value x * 16 + digit_value y) ∷ from_hex rest

digit_value-hex_digit : (n : ℕ) → n < 16 → digit_value (hex_digit n) ≡ n
unfolding hex_digit
digit_value-hex_digit n h = ground arith

from_hex-sha256_to_hex : (xs : List ℕ) → AllBytes xs → from_hex (sha256_to_hex xs) ≡ xs
unfolding sha256_to_hex
from_hex-sha256_to_hex [] h = refl
from_hex-sha256_to_hex (x ∷ xs) h =
    let high = digit_value-hex_digit (x / 16) (omega (arith, h.0)) in
    let low = digit_value-hex_digit (x % 16) (omega arith) in
    ap₂ (λ (y : ℕ) (ys : List ℕ). y ∷ ys) (omega (arith, high, low)) (from_hex-sha256_to_hex xs h.1)

word_bytes-AllBytes : (w : ℕ) (xs : List ℕ) → AllBytes xs → AllBytes (word_bytes w ++ xs)
unfolding word_bytes
word_bytes-AllBytes w xs h = (omega arith, (omega arith, (omega arith, (omega arith, h))))

digest-AllBytes : (r : Regs) → AllBytes (digest r)
unfolding digest
digest-AllBytes r =
    let last : AllBytes (word_bytes r.h) =
      subst AllBytes (append-nil (word_bytes r.h)) (word_bytes-AllBytes r.h [] tt) in
    let from_g = word_bytes-AllBytes r.g (word_bytes r.h) last in
    let from_f = word_bytes-AllBytes r.f (word_bytes r.g ++ (word_bytes r.h)) from_g in
    let from_e =
      word_bytes-AllBytes r.e (word_bytes r.f ++ (word_bytes r.g ++ (word_bytes r.h))) from_f in
    let from_d =
      word_bytes-AllBytes r.d
        (word_bytes r.e ++ (word_bytes r.f ++ (word_bytes r.g ++ (word_bytes r.h)))) from_e in
    let from_c =
      word_bytes-AllBytes r.c
        (word_bytes r.d
          ++ (word_bytes r.e ++ (word_bytes r.f ++ (word_bytes r.g ++ (word_bytes r.h)))))
        from_d in
    word_bytes-AllBytes r.a
      (word_bytes r.b
        ++ (word_bytes r.c
            ++ (word_bytes r.d
                ++ (word_bytes r.e ++ (word_bytes r.f ++ (word_bytes r.g ++ (word_bytes r.h)))))))
      (word_bytes-AllBytes r.b
        (word_bytes r.c
          ++ (word_bytes r.d
              ++ (word_bytes r.e ++ (word_bytes r.f ++ (word_bytes r.g ++ (word_bytes r.h))))))
        from_c)

length-digest : (r : Regs) → length (digest r) ≡ 32
unfolding digest word_bytes
length-digest r = refl

abbrev hash_of : List ℕ → Regs
hash_of bytes =
    let len = length bytes in
    let full = len / 64 in
    process_blocks (pad_blocks (len % 64)) (padding (drop (full * 64) bytes) len)
      (process_blocks full bytes initial_hash)

-- `sha256` gives 32 bytes, and the bytes can be read back from the string of `sha256_to_hex`.
pub sha256_to_hex_lem :
    (bytes : List ℕ)
    → (length (sha256 bytes) ≡ 32) × (from_hex (sha256_to_hex (sha256 bytes)) ≡ sha256 bytes)
unfolding sha256
sha256_to_hex_lem bytes =
    let r = hash_of bytes in
    (length-digest r, from_hex-sha256_to_hex (digest r) (digest-AllBytes r))
