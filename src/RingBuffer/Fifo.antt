-- ===== src/RingBuffer/Fifo.antt =====
-- A valid ring is a queue of bytes, oldest first, that keeps the last `capacity` bytes.
use munt3os.Base.{
  ℕ, zero, suc, ◌+◌, ◌-◌, ◌%◌, ◌≤◌, ◌<◌, min, ◌≡◌, refl, sym, ap, ap₂, ◌∙◌, inl, inr, List, [], ◌∷◌,
  ◌++◌, append-nil, append_assoc, arith, ltb, ◌==◌, ltb→lt, lt→ltb, ltb→le, le→ltb, ==_refl,
  suc-ne-zero, Bool-cases, length, get_or, set, take, drop, length-append, length-drop, take_last,
  take_last-append, take_last-append_long, take_last_all, get_or-set, mod-wrap, add_u64,
}
use native.Mathlib.Decide.{dec_lt}
use native.Mathlib.Numerals.{add-one}
use munt3os.RingBuffer.{RingBuffer, put, get, write_loop, write, read_loop, read}
use munt3os.RingBuffer.Valid.{IsValid, put-IsValid, get-IsValid}

module _ (buf : List ℕ) (n : ℕ) where
  -- The `k` bytes from index `t` on, going round at `n`.
  abbrev pub window : ℕ → ℕ → List ℕ
  window t zero = []
  window t (suc k) = get_or buf t 0 ∷ window ((t + 1) % n) k

  pub length-window : (t k : ℕ) → length (window t k) ≡ k
  length-window t zero = refl
  length-window t (suc k) = ap suc (length-window ((t + 1) % n) k)

  around : (t k : ℕ) → t < n → k < n → ((t + 1) % n + k) % n ≡ (t + suc k) % n
  around t k h p =
      ground (arith, mod-wrap (t + 1) n, mod-wrap ((t + 1) % n + k) n, mod-wrap (t + suc k) n)

  window-snoc :
      (k t : ℕ) → t < n → k < n → window t (suc k) ≡ window t k ++ (get_or buf ((t + k) % n) 0 ∷ [])
  window-snoc zero t h p = ap (λ i. get_or buf i 0 ∷ []) (ground (arith, mod-wrap (t + 0) n))
  window-snoc (suc k) t h p = rw (
    window-snoc k ((t + 1) % n) (ground (arith, mod-wrap (t + 1) n)) (omega arith),
    around t k h (omega arith),
  )

abbrev pub contents : RingBuffer → List ℕ
contents rb = window rb.buffer rb.capacity rb.tail rb.count

pub length-contents : (rb : RingBuffer) → length (contents rb) ≡ rb.count
length-contents rb = length-window rb.buffer rb.capacity rb.tail rb.count

-- A write at the index behind a window leaves the window alone.
window-set :
    (buf : List ℕ) (n x k t i : ℕ)
    → i < length buf
    → t < n
    → k < n
    → i ≡ (t + k) % n
    → window (set buf i x) n t k ≡ window buf n t k
window-set buf n x zero t i h p q e = refl
window-set buf n x (suc k) t i h p q e =
    ap₂ ◌∷◌ (ground (arith, get_or-set buf i t x 0, mod-wrap (t + suc k) n)) (
      window-set buf n x k ((t + 1) % n) i h (ground (arith, mod-wrap (t + 1) n)) (omega arith)
        (e ∙ sym (around buf n t k p (omega arith))))

-- After the write at that index the window is longer by the byte.
pub window-put :
    (buf : List ℕ) (n x k t i : ℕ)
    → i < length buf
    → t < n
    → k < n
    → i ≡ (t + k) % n
    → window (set buf i x) n t (suc k) ≡ window buf n t k ++ (x ∷ [])
window-put buf n x k t i h p q e = rw (
  window-snoc (set buf i x) n k t p q,
  window-set buf n x k t i h p q e,
  ← e,
  get_or-set buf i i x 0 h,
  ==_refl i,
)

-- In a full ring `head` is `tail`: the write replaces the oldest byte, and the window moves on.
window-turn :
    (buf : List ℕ) (n x k t : ℕ)
    → n ≤ length buf
    → t < n
    → suc k ≡ n
    → window (set buf t x) n ((t + 1) % n) (suc k)
      ≡ take_last n (window buf n t (suc k) ++ (x ∷ []))
window-turn buf n x k t h p e =
    let next : (t + 1) % n < n = ground (arith, mod-wrap (t + 1) n) in
    let back : t ≡ ((t + 1) % n + k) % n =
      ground (arith, around buf n t k p (omega arith), mod-wrap (t + suc k) n) in
    let rest = window buf n ((t + 1) % n) k in
    let one : 1 ≡ suc (length (rest ++ (x ∷ []))) - n =
      omega (arith, length-append rest (x ∷ []), length-window buf n ((t + 1) % n) k) in
    window-put buf n x k ((t + 1) % n) t (omega arith) next (omega arith) back
    ∙ ap (λ j. drop j (get_or buf t 0 ∷ rest ++ (x ∷ []))) one

-- A byte joins the queue, which then keeps its last `capacity` bytes.
put-contents :
    (rb : RingBuffer) (x : ℕ)
    → IsValid rb
    → contents (put rb x) ≡ take_last rb.capacity (contents rb ++ (x ∷ []))
unfolding put
put-contents rb x v = elim (dec_lt rb.count rb.capacity) [
  | yes p ↦
      rw (lt→ltb rb.count rb.capacity p, add-one)
        (window-put rb.buffer rb.capacity x rb.count rb.tail rb.head (omega arith) v.tail_in p
            v.order
          ∙ sym (
              take_last_all rb.capacity (contents rb ++ (x ∷ []))
                (omega (arith, length-append (contents rb) (x ∷ []), length-contents rb))))
  | no p ↦
      let k = rb.count - 1 in
      let e : rb.count ≡ suc k = omega arith in
      let here : rb.head ≡ rb.tail = ground (arith, mod-wrap (rb.tail + rb.count) rb.capacity) in
      let step : add_u64 rb.tail 1 ≡ rb.tail + 1 = omega arith in
      rw (le→ltb rb.count rb.capacity (omega arith), here, step, e)
        (window-turn rb.buffer rb.capacity x k rb.tail v.storage v.tail_in (omega arith))
]

put-capacity : (rb : RingBuffer) (x : ℕ) → (put rb x).capacity ≡ rb.capacity
unfolding put
put-capacity rb x = refl

write_loop-contents :
    (xs : List ℕ) (rb : RingBuffer)
    → IsValid rb
    → contents (write_loop rb xs) ≡ take_last rb.capacity (contents rb ++ xs)
unfolding write_loop
write_loop-contents [] rb v =
    rw append-nil
      (sym (take_last_all rb.capacity (contents rb) (omega (arith, length-contents rb))))
write_loop-contents (x ∷ xs) rb v =
    write_loop-contents xs (put rb x) (put-IsValid rb x v)
    ∙ rw (put-capacity, put-contents rb x v, take_last-append, append_assoc)

-- `ring_buffer_write` takes all bytes up to the capacity, says how many it stored, and leaves the
-- last `capacity` bytes of what was there and what was written.
pub write-contents :
    (rb : RingBuffer) (xs : List ℕ)
    → IsValid rb
    → ((write rb xs).0 ≡ min (length xs) rb.capacity)
      × (contents (write rb xs).1 ≡ take_last rb.capacity (contents rb ++ xs))
unfolding write
write-contents rb [] v = (
  omega arith,
  rw append-nil (sym (take_last_all rb.capacity (contents rb) (omega (arith, length-contents rb)))),
)
write-contents rb (x ∷ xs) v = elim (Bool-cases (ltb rb.capacity (length (x ∷ xs)))) [
  | inr fits ↦
      rw (suc-ne-zero (length xs), fits)
        (
          omega (arith, ltb→le rb.capacity (length (x ∷ xs)) fits),
          write_loop-contents (x ∷ xs) rb v,
        )
  | inl long ↦
      let n = rb.capacity in
      let ys = x ∷ xs in
      let h : n < length ys = ltb→lt n (length ys) long in
      let cut = drop (length ys - n) ys in
      let all : n ≤ length cut = omega (arith, length-drop (length ys - n) ys) in
      rw (suc-ne-zero (length xs), long)
        (
          omega arith,
          write_loop-contents cut rb v
              ∙ (take_last-append_long n (contents rb) cut all
                  ∙ (take_last_all n cut (omega (arith, length-drop (length ys - n) ys))
                      ∙ sym (take_last-append_long n (contents rb) ys (omega arith)))),
        )
]

get-contents :
    (rb : RingBuffer) → 0 < rb.count → IsValid rb → contents rb ≡ (get rb).0 ∷ contents (get rb).1
unfolding get
get-contents rb h v =
    let k = rb.count - 1 in
    let e : rb.count ≡ suc k = omega arith in
    let step : add_u64 rb.tail 1 ≡ rb.tail + 1 = omega arith in
    rw step (ap (λ j. window rb.buffer rb.capacity rb.tail j) e)

contents_of_empty : (rb : RingBuffer) → rb.count ≡ 0 → contents rb ≡ []
contents_of_empty rb e = ap (λ j. window rb.buffer rb.capacity rb.tail j) e

read_loop-contents :
    (len : ℕ) (rb : RingBuffer)
    → IsValid rb
    → ((read_loop len rb).0 ≡ take len (contents rb))
      × (contents (read_loop len rb).1 ≡ drop len (contents rb))
unfolding read_loop
read_loop-contents zero rb v = (refl, refl)
read_loop-contents (suc len) rb v = elim (Bool-cases (ltb 0 rb.count)) [
  | inl more ↦
      let h = ltb→lt 0 rb.count more in
      let rest = read_loop-contents len (get rb).1 (get-IsValid rb h v) in
      rw (more, get-contents rb h v) (ap (λ t. (get rb).0 ∷ t) rest.0, rest.1)
  | inr done ↦
      let e = contents_of_empty rb (ground arith) in
      rw done (sym (ap (take (suc len)) e), e ∙ sym (ap (drop (suc len)) e))
]

-- `ring_buffer_read` returns the oldest `len` bytes, or all of them, and leaves the others.
pub read-contents :
    (rb : RingBuffer) (len : ℕ)
    → IsValid rb
    → ((read rb len).0 ≡ take len (contents rb))
      × (contents (read rb len).1 ≡ drop len (contents rb))
unfolding read
read-contents rb zero v = (refl, refl)
read-contents rb (suc len) v = elim (Bool-cases (rb.count == 0)) [
  | inl nothing ↦
      let e = contents_of_empty rb (ground arith) in
      rw (suc-ne-zero len, nothing) (sym (ap (take (suc len)) e), e ∙ sym (ap (drop (suc len)) e))
  | inr more ↦ rw (suc-ne-zero len, more) (read_loop-contents (suc len) rb v)
]
