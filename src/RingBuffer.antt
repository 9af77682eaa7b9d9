-- ===== src/RingBuffer.antt =====
-- krnl/util/ring_buffer.c: a byte ring over one allocation, which overwrites its oldest bytes when
-- it is full. `count++` runs below `capacity` and `count--` above 0, so neither can wrap.
pub mod Valid
pub mod Fifo
mod Tests
use munt3os.Base.{
  ℕ, zero, suc, ◌+◌, ◌-◌, ◌*◌, ◌/◌, ◌%◌, ◌<◌, Bool, true, false, List, [], ◌∷◌, Option, none, some,
  ltb, ◌==◌, if◌then◌else◌, length, get_or, set, drop, add_u64, sub_u64,
}

-- `ring_buffer_t`; `base` is the pointer in `buffer`, `buffer` the bytes that stand there.
pub record RingBuffer : Type 0 where
  pub base : ℕ
  pub buffer : List ℕ
  pub capacity : ℕ
  pub head : ℕ
  pub tail : ℕ
  pub count : ℕ

-- `(size + 0xFFF) & ~0xFFF` on 64 bits.
unfoldable pub alloc_size : ℕ → ℕ
alloc_size size = add_u64 size 0xfff / 0x1000 * 0x1000

-- The return codes of `ring_buffer_init`.
pub data Status : Type 0 where
  success : RingBuffer → Status
  bad_size : Status
  no_memory : Status

-- `pages_at n` is what `phys_to_virt(pmm_alloc(n))` gives: an address and the bytes found there.
unfoldable pub init : (ℕ → ℕ × List ℕ) → ℕ → Status
unfolding alloc_size
init pages_at size =
    if size == 0
    then bad_size
    else (let (p, bytes) = pages_at (alloc_size size / 0x1000) in
        if p == 0
        then no_memory
        else success (record {
          base = p;
          buffer = bytes;
          capacity = alloc_size size;
          head = 0;
          tail = 0;
          count = 0;
        }))

-- The body of the loop in `ring_buffer_write`.
unfoldable pub put : RingBuffer → ℕ → RingBuffer
put rb x = record rb {
  buffer = set rb.buffer rb.head x;
  head = add_u64 rb.head 1 % rb.capacity;
  count = if ltb rb.count rb.capacity then rb.count + 1 else rb.count;
  tail = if ltb rb.count rb.capacity then rb.tail else add_u64 rb.tail 1 % rb.capacity;
}

unfoldable pub write_loop : RingBuffer → List ℕ → RingBuffer
unfolding put
write_loop rb [] = rb
write_loop rb (x ∷ xs) = write_loop (put rb x) xs

-- The list is `data[0..len)`. Of more than `capacity` bytes only the last `capacity` are stored.
unfoldable pub write : RingBuffer → List ℕ → ℕ × RingBuffer
unfolding write_loop
write rb data' =
    let len = length data' in
    if len == 0
    then (0, rb)
    else if ltb rb.capacity len
    then (rb.capacity, write_loop rb (drop (len - rb.capacity) data'))
    else (len, write_loop rb data')

-- One round of the loop in `ring_buffer_read`.
unfoldable pub get : RingBuffer → ℕ × RingBuffer
get rb = (
  get_or rb.buffer rb.tail 0,
  record rb { tail = add_u64 rb.tail 1 % rb.capacity; count = rb.count - 1 },
)

-- `len` rounds at most; the loop stops when the ring is empty.
unfoldable pub read_loop : ℕ → RingBuffer → List ℕ × RingBuffer
unfolding get
read_loop zero rb = ([], rb)
read_loop (suc len) rb =
    let (x, rb') = get rb in
    let rest = read_loop len rb' in if ltb 0 rb.count then (x ∷ rest.0, rest.1) else ([], rb)

-- The list is what was stored through `data`; its length is what the function returns.
unfoldable pub read : RingBuffer → ℕ → List ℕ × RingBuffer
unfolding read_loop
read rb len = if len == 0 then ([], rb) else if rb.count == 0 then ([], rb) else read_loop len rb

unfoldable pub available : RingBuffer → ℕ
available rb = rb.count

unfoldable pub free_space : RingBuffer → ℕ
free_space rb = sub_u64 rb.capacity rb.count

unfoldable pub clear : RingBuffer → RingBuffer
clear rb = record rb { head = 0; tail = 0; count = 0 }
