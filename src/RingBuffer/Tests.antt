-- ===== src/RingBuffer/Tests.antt =====
-- The ring at concrete buffers.
use munt3os.Base.{ℕ, ◌≡◌, refl, [], ◌∷◌, arith}
use munt3os.RingBuffer.{RingBuffer, init, bad_size, write, read}
use munt3os.RingBuffer.Valid.{IsValid}
use munt3os.RingBuffer.Fifo.{contents, write-contents, read-contents}

-- Three bytes of four; the oldest stands at index 2.
abbrev sample : RingBuffer
sample = record {
  base = 0x1000;
  buffer = 30 ∷ 99 ∷ 10 ∷ 20 ∷ [];
  capacity = 4;
  head = 1;
  tail = 2;
  count = 3;
}

sample-IsValid : IsValid sample
sample-IsValid = omega arith

write_overwrites : (write sample (1 ∷ 2 ∷ [])).1.tail ≡ 3
unfolding write
write_overwrites = refl

read_two : (read sample 2).0 ≡ 10 ∷ 20 ∷ []
unfolding read
read_two = refl

init_rounds : (size : ℕ) → size ≡ 0 → init (λ n. (0x2000, [])) size ≡ bad_size
unfolding init
init_rounds size e = rw e

write-contents_example :
    ((write sample (1 ∷ 2 ∷ [])).0 ≡ 2)
    × (contents (write sample (1 ∷ 2 ∷ [])).1 ≡ 20 ∷ 30 ∷ 1 ∷ 2 ∷ [])
write-contents_example = write-contents sample (1 ∷ 2 ∷ []) sample-IsValid

read-contents_example : ((read sample 2).0 ≡ 10 ∷ 20 ∷ []) × (contents (read sample 2).1 ≡ 30 ∷ [])
read-contents_example = read-contents sample 2 sample-IsValid
