-- ===== src/RingBuffer/Valid.antt =====
-- The representation invariant of `ring_buffer_t`, and that every operation keeps it.
use munt3os.Base.{
  ℕ, zero, suc, ◌+◌, ◌-◌, ◌%◌, ◌^◌, ◌≤◌, ◌<◌, ◌≡◌, inl, inr, List, [], ◌∷◌, arith, ltb, ltb→lt,
  Bool-cases, length, drop, length-set, mod-wrap,
}
use munt3os.RingBuffer.{RingBuffer, put, get, write_loop, write, read_loop, read, clear}

-- `head` is where the byte behind the last one goes; `capacity` is at most half of `size_t`.
pub record IsValid (rb : RingBuffer) : Type 0 where
  pub storage : rb.capacity ≤ length rb.buffer
  pub positive : 0 < rb.capacity
  pub small : rb.capacity ≤ 2 ^ 63
  pub head_in : rb.head < rb.capacity
  pub tail_in : rb.tail < rb.capacity
  pub count_in : rb.count ≤ rb.capacity
  pub order : rb.head ≡ (rb.tail + rb.count) % rb.capacity

pub put-IsValid : (rb : RingBuffer) (x : ℕ) → IsValid rb → IsValid (put rb x)
unfolding put
put-IsValid rb x v = ground (
  arith,
  length-set rb.buffer rb.head x,
  mod-wrap (rb.tail + rb.count) rb.capacity,
  mod-wrap (rb.tail + (rb.count + 1)) rb.capacity,
  mod-wrap (rb.head + 1) rb.capacity,
  mod-wrap (rb.tail + 1) rb.capacity,
)

pub get-IsValid : (rb : RingBuffer) → 0 < rb.count → IsValid rb → IsValid (get rb).1
unfolding get
get-IsValid rb some_bytes v = ground (
  arith,
  mod-wrap (rb.tail + rb.count) rb.capacity,
  mod-wrap ((rb.tail + 1) % rb.capacity + (rb.count - 1)) rb.capacity,
  mod-wrap (rb.tail + 1) rb.capacity,
)

pub write_loop-IsValid : (xs : List ℕ) (rb : RingBuffer) → IsValid rb → IsValid (write_loop rb xs)
unfolding write_loop
write_loop-IsValid [] rb v = v
write_loop-IsValid (x ∷ xs) rb v = write_loop-IsValid xs (put rb x) (put-IsValid rb x v)

-- `ring_buffer_write` keeps the invariant.
pub write-IsValid : (rb : RingBuffer) (xs : List ℕ) → IsValid rb → IsValid (write rb xs).1
unfolding write
write-IsValid rb xs v =
    ground
      (arith, write_loop-IsValid xs rb, write_loop-IsValid (drop (length xs - rb.capacity) xs) rb)

pub read_loop-IsValid : (len : ℕ) (rb : RingBuffer) → IsValid rb → IsValid (read_loop len rb).1
unfolding read_loop
read_loop-IsValid zero rb v = v
read_loop-IsValid (suc len) rb v = elim (Bool-cases (ltb 0 rb.count)) [
  | inl more ↦ rw more (read_loop-IsValid len (get rb).1 (get-IsValid rb (ltb→lt _ _ more) v))
  | inr done ↦ rw done v
]

-- `ring_buffer_read` keeps the invariant.
pub read-IsValid : (rb : RingBuffer) (len : ℕ) → IsValid rb → IsValid (read rb len).1
unfolding read
read-IsValid rb len v = ground (arith, read_loop-IsValid len rb)

pub clear-IsValid : (rb : RingBuffer) → IsValid rb → IsValid (clear rb)
unfolding clear
clear-IsValid rb v = ground (arith, mod-wrap 0 rb.capacity)
