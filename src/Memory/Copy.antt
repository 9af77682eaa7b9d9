-- ===== src/Memory/Copy.antt =====
-- What the copying loops leave in memory.
use munt3os.Base.{
  ℕ, zero, suc, ◌+◌, ◌-◌, ◌%◌, ◌≤◌, ◌<◌, ◌≡◌, refl, ◌∙◌, ◌↔◌, ◌⊎◌, inl, inr, Bool, ◌&&◌, arith,
  ℕ_discrete, ltb, leb, ◌==◌, if◌then◌else◌, Bool-cases, u8, pos,
}
use munt3os.Memory.{
  Mem, store, copy_up, copy_down, memcpy, memmove, memset, fill_from, memcmp, memcmp_from,
}

-- `x` lies in the `n` bytes from `d` on.
abbrev pub in_block : ℕ → ℕ → ℕ → Bool
in_block d n x = leb d x && ltb x (d + n)

-- `m'` is `m` with the block at `s` as it was in `m` also at `d`.
abbrev pub Copied : Mem → Mem → ℕ → ℕ → ℕ → Type 0
Copied m m' d s n = (x : ℕ) → m' x ≡ (if in_block d n x then m (s + (x - d)) else m x)

module _ (d s : ℕ) where
  copy_up_lem :
      (n i : ℕ) (m : Mem)
      → (d ≤ s) ⊎ (s + (i + n) ≤ d)
      → (x : ℕ) → copy_up m d s i n x ≡ (if in_block (d + i) n x then m (s + (x - d)) else m x)
  unfolding copy_up
  copy_up_lem zero i m apart x = ground arith
  copy_up_lem (suc n) i m apart x =
      let m' = store m (d + i) (m (s + i)) in
      let ih = copy_up_lem n (i + 1) m' (ground arith) x in
      elim (ℕ_discrete x (d + i)) [
        | yes e ↦ let at : x - d ≡ i = omega arith in rw (ih, at) (ground arith)
        | no ne ↦ rw ih (ground arith)
      ]

  copy_down_lem :
      (n : ℕ) (m : Mem)
      → s ≤ d
      → (x : ℕ) → copy_down m d s n x ≡ (if in_block d n x then m (s + (x - d)) else m x)
  unfolding copy_down
  copy_down_lem zero m le x = ground arith
  copy_down_lem (suc n) m le x =
      let m' = store m (d + n) (m (s + n)) in
      let ih = copy_down_lem n m' le x in
      elim (ℕ_discrete x (d + n)) [
        | yes e ↦ let at : x - d ≡ n = omega arith in rw (ih, at) (ground arith)
        | no ne ↦ rw ih (ground arith)
      ]

-- `memcpy` copies the block if the destination does not lie behind the source inside it.
pub memcpy-Copied : (m : Mem) (d s n : ℕ) → (d ≤ s) ⊎ (s + n ≤ d) → Copied m (memcpy m d s n) d s n
unfolding memcpy
memcpy-Copied m d s n apart x =
    let at : d + 0 ≡ d = omega arith in copy_up_lem d s n 0 m (ground arith) x ∙ rw at

-- `memmove` copies the block wherever the two lie, and writes nowhere else.
pub memmove-Copied : (m : Mem) (d s n : ℕ) → Copied m (memmove m d s n) d s n
unfolding memmove
memmove-Copied m d s n x = elim (Bool-cases (ltb d s)) [
  | inl below ↦
      let at : d + 0 ≡ d = omega arith in
      rw below (copy_up_lem d s n 0 m (inl (ground arith)) x ∙ rw at)
  | inr above ↦ elim (Bool-cases (ltb s d)) [
    | inl over ↦ rw (above, over) (copy_down_lem d s n m (ground arith) x)
    | inr level ↦ let e : d ≡ s = ground arith in rw (above, level) (same e)
  ]
]
  where
    same : d ≡ s → m x ≡ (if in_block d n x then m (s + (x - d)) else m x)
    same e = elim (Bool-cases (leb d x)) [
      | inl le ↦ let at : s + (x - d) ≡ x = ground arith in rw at (ground arith)
      | inr lt ↦ rw lt
    ]

fill_from_lem :
    (m : Mem) (d v n i : ℕ) (x : ℕ)
    → fill_from m d v i n x ≡ (if in_block (d + i) n x then u8 v else m x)
unfolding fill_from
fill_from_lem m d v zero i x = ground arith
fill_from_lem m d v (suc n) i x =
    fill_from_lem (store m (d + i) (u8 v)) d v n (i + 1) x ∙ ground arith

-- `memset` writes the low byte of its value to the block, and nowhere else.
pub memset_lem :
    (m : Mem) (d v n : ℕ) (x : ℕ) → memset m d v n x ≡ (if in_block d n x then v % 256 else m x)
unfolding memset
memset_lem m d v n x = let at : d + 0 ≡ d = omega arith in fill_from_lem m d v n 0 x ∙ rw at

memcmp_from-zero :
    (m : Mem) (p q n i : ℕ)
    → (memcmp_from m p q i n ≡ pos 0) ↔ ((k : ℕ) → i ≤ k → k < i + n → m (p + k) ≡ m (q + k))
unfolding memcmp_from
memcmp_from-zero m p q zero i = (λ e k h l. absurd (omega arith), λ h. refl)
memcmp_from-zero m p q (suc n) i =
    let ih = memcmp_from-zero m p q n (i + 1) in
    elim (Bool-cases (m (p + i) == m (q + i))) [
      | inl same ↦ rw same (
        λ e k h l. elim (ℕ_discrete k i) [
          | yes at ↦ rw at (ground arith)
          | no other ↦ ih.0 e k (omega arith) (omega arith)
        ],
        λ h. ih.1 (λ k le lt. h k (omega arith) (omega arith)),
      )
      | inr differ ↦ rw differ (λ e. absurd (ground arith), λ h. absurd (ground (arith, h i)))
    ]

-- `memcmp` is 0 exactly if the blocks hold the same bytes.
pub memcmp-zero :
    (m : Mem) (p q n : ℕ) → (memcmp m p q n ≡ pos 0) ↔ ((k : ℕ) → k < n → m (p + k) ≡ m (q + k))
unfolding memcmp
memcmp-zero m p q n =
    let r = memcmp_from-zero m p q n 0 in
    (λ e k lt. r.0 e k (omega arith) (omega arith), λ h. r.1 (λ k le lt. h k (omega arith)))
