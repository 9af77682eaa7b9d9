-- ===== src/Memory/Fast.antt =====
-- `memcpy_fast` does what `memcpy` does, for blocks that do not overlap.
use munt3os.Base.{
  ℕ, zero, suc, ◌+◌, ◌-◌, ◌*◌, ◌/◌, ◌%◌, ◌≤◌, ◌≡◌, refl, sym, ◌∙◌, ◌⊎◌, inl, inr, arith, ℕ_discrete,
  ltb, ◌==◌, Bool-cases,
}
use munt3os.Memory.{
  Mem, store, memcpy, copy_word, copy_words, copy_block, copy_blocks, copy_bytes, copy_aligned,
  copy_align, memcpy_fast,
}
use munt3os.Memory.Copy.{in_block, Copied, memcpy-Copied}

abbrev pub Disjoint : ℕ → ℕ → ℕ → Type 0
Disjoint d s n = (d + n ≤ s) ⊎ (s + n ≤ d)

-- A copy of the first part and a copy of the rest are a copy of the whole.
Copied-join :
    (m m' m'' : Mem) (d s a b : ℕ)
    → Disjoint d s (a + b)
    → Copied m m' d s a
    → Copied m' m'' (d + a) (s + a) b
    → Copied m m'' d s (a + b)
Copied-join m m' m'' d s a b apart first second x = elim (Bool-cases (in_block (d + a) b x)) [
  | inl back ↦
      let at : s + a + (x - (d + a)) ≡ s + (x - d) = ground arith in
      rw (second x, back, at, first (s + (x - d))) (ground arith)
  | inr front ↦ rw (second x, front, first x) (ground arith)
]

Copied-nothing : (m : Mem) (d s : ℕ) → Copied m m d s 0
Copied-nothing m d s x = ground arith

Copied-byte : (m : Mem) (d s : ℕ) → Copied m (store m d (m s)) d s 1
Copied-byte m d s x = elim (ℕ_discrete x d) [
  | yes e ↦ let at : s + (x - d) ≡ s = omega arith in rw at (ground arith)
  | no ne ↦ ground arith
]

copy_bytes-Copied :
    (n : ℕ) (m : Mem) (d s : ℕ) → Disjoint d s n → Copied m (copy_bytes m d s n) d s n
unfolding copy_bytes
copy_bytes-Copied zero m d s apart = Copied-nothing m d s
copy_bytes-Copied (suc n) m d s apart =
    let whole : 1 + n ≡ suc n = omega arith in
    let rest = copy_bytes-Copied n (store m d (m s)) (d + 1) (s + 1) (omega arith) in
    rw (← whole) (
      Copied-join m (store m d (m s)) (copy_bytes (store m d (m s)) (d + 1) (s + 1) n) d s 1 n
        (omega arith) (Copied-byte m d s) rest)

Copied-length : (m m' : Mem) (d s : ℕ) {a b : ℕ} → a ≡ b → Copied m m' d s a → Copied m m' d s b
Copied-length m m' d s e c x = rw (← e) (c x)

copy_word-Copied : (m : Mem) (d s : ℕ) → Copied m (copy_word m d s) d s 8
unfolding copy_word
copy_word-Copied m d s x = refl

copy_words-Copied :
    (n : ℕ) (m : Mem) (d s : ℕ) → Disjoint d s (8 * n) → Copied m (copy_words m d s n) d s (8 * n)
unfolding copy_words
copy_words-Copied zero m d s apart = Copied-nothing m d s
copy_words-Copied (suc n) m d s apart =
    Copied-length m (copy_words m d s (suc n)) d s {a = 8 + 8 * n} {b = 8 * suc n} (omega arith) (
      Copied-join m (copy_word m d s) _ d s 8 (8 * n) (omega arith) (copy_word-Copied m d s)
        (copy_words-Copied n (copy_word m d s) (d + 8) (s + 8) (omega arith)))

copy_block-Copied : (m : Mem) (d s : ℕ) → Disjoint d s 32 → Copied m (copy_block m d s) d s 32
unfolding copy_block
copy_block-Copied m d s apart =
    let m1 = copy_word m d s in
    let m2 = copy_word m1 (d + 8) (s + 8) in
    let m3 = copy_word m2 (d + 16) (s + 16) in
    let two =
      Copied-join m m1 m2 d s 8 8 (omega arith) (copy_word-Copied m d s)
        (copy_word-Copied m1 (d + 8) (s + 8)) in
    let three =
      Copied-join m m2 m3 d s 16 8 (omega arith) two (copy_word-Copied m2 (d + 16) (s + 16)) in
    Copied-join m m3 _ d s 24 8 apart three (copy_word-Copied m3 (d + 24) (s + 24))

copy_blocks-Copied :
    (n : ℕ) (m : Mem) (d s : ℕ)
    → Disjoint d s (32 * n)
    → Copied m (copy_blocks m d s n) d s (32 * n)
unfolding copy_blocks
copy_blocks-Copied zero m d s apart = Copied-nothing m d s
copy_blocks-Copied (suc n) m d s apart =
    Copied-length m (copy_blocks m d s (suc n)) d s {a = 32 + 32 * n} {b = 32 * suc n} (omega arith)
      (Copied-join m (copy_block m d s) _ d s 32 (32 * n) (omega arith)
        (copy_block-Copied m d s (omega arith))
        (copy_blocks-Copied n (copy_block m d s) (d + 32) (s + 32) (omega arith)))

copy_aligned-Copied : (m : Mem) (d s n : ℕ) → Disjoint d s n → Copied m (copy_aligned m d s n) d s n
unfolding copy_aligned
copy_aligned-Copied m d s n apart =
    let k = n / 32 * 32 in
    let j = n % 32 / 8 * 8 in
    let m1 = copy_blocks m d s (n / 32) in
    let m2 = copy_words m1 (d + k) (s + k) (n % 32 / 8) in
    let first =
      Copied-length m m1 d s {a = 32 * (n / 32)} {b = k} (omega arith)
        (copy_blocks-Copied (n / 32) m d s (omega arith)) in
    let second =
      Copied-length m1 m2 (d + k) (s + k) {a = 8 * (n % 32 / 8)} {b = j} (omega arith)
        (copy_words-Copied (n % 32 / 8) m1 (d + k) (s + k) (omega arith)) in
    let third = copy_bytes-Copied (n % 32 % 8) m2 (d + k + j) (s + k + j) (omega arith) in
    let tail = Copied-join m1 m2 _ (d + k) (s + k) j (n % 32 % 8) (omega arith) second third in
    Copied-length m (copy_aligned m d s n) d s {a = k + (j + n % 32 % 8)} {b = n} (omega arith)
      (Copied-join m m1 _ d s k (j + n % 32 % 8) (omega arith) first tail)

copy_align-Copied :
    (n : ℕ) (m : Mem) (d s : ℕ) → Disjoint d s n → Copied m (copy_align m d s n) d s n
unfolding copy_align
copy_align-Copied zero m d s apart = copy_aligned-Copied m d s 0 apart
copy_align-Copied (suc n) m d s apart = elim (Bool-cases (d % 8 == 0)) [
  | inl even ↦ rw even (copy_aligned-Copied m d s (suc n) apart)
  | inr odd ↦ rw odd (
      Copied-length m (copy_align (store m d (m s)) (d + 1) (s + 1) n) d s {a = 1 + n} {b = suc n}
        (omega arith)
        (Copied-join m (store m d (m s)) _ d s 1 n (omega arith) (Copied-byte m d s)
          (copy_align-Copied n (store m d (m s)) (d + 1) (s + 1) (omega arith))))
]

memcpy_fast-Copied : (m : Mem) (d s n : ℕ) → Disjoint d s n → Copied m (memcpy_fast m d s n) d s n
unfolding memcpy_fast
memcpy_fast-Copied m d s n apart = elim (Bool-cases (ltb n 8)) [
  | inl short ↦ rw short (copy_bytes-Copied n m d s apart)
  | inr long ↦ rw long (copy_align-Copied n m d s apart)
]

-- For blocks that do not overlap, `memcpy_fast` leaves every byte of memory as `memcpy` does.
pub memcpy_fast_lem :
    (m : Mem) (d s n : ℕ) → Disjoint d s n → (x : ℕ) → memcpy_fast m d s n x ≡ memcpy m d s n x
memcpy_fast_lem m d s n apart x =
    memcpy_fast-Copied m d s n apart x ∙ sym (memcpy-Copied m d s n (ground arith) x)
