-- ===== src/Pmm/Calls.antt =====
-- Sequences of calls of the page allocator, from `pmm_init` on.
use munt3os.Base.{
  ℕ, ◌+◌, ◌^◌, ◌≤◌, ◌<◌, ◌≡◌, ap, ◌∙◌, ◌≢◌, some, List, [], ◌∷◌, ◌++◌, arith, page_size,
}
use munt3os.Pmm.{Pmm, Entry, boot, highest_addr, bitmap_place, pmm_init, pmm_alloc, pmm_free}
use munt3os.Pmm.Init.{owners, WellFormed}
use munt3os.Pmm.Boot.{bytes_of, pmm_init-Booted}
use munt3os.Pmm.Shared.{
  bit_number, holders, held_frames, Shared, alloc-Shared, null-Shared, free-Shared,
}

-- The pointers that callers hold, each with its number of frames, and the state, after some calls. A pointer is
-- freed once, with its number of frames.
pub data Calls (mmap : List Entry) (offset : ℕ) : List (ℕ × ℕ) → Pmm → Type 0 where
  calls_boot : Calls mmap offset [] (pmm_init (some mmap) (some offset) boot)
  calls_null :
      {held : List (ℕ × ℕ)} {p : Pmm} (n : ℕ)
      → Calls mmap offset held p
      → (pmm_alloc p n).0 ≡ 0
      → Calls mmap offset held (pmm_alloc p n).1
  calls_alloc :
      {held : List (ℕ × ℕ)} {p : Pmm} (n : ℕ)
      → Calls mmap offset held p
      → (pmm_alloc p n).0 ≢ 0
      → Calls mmap offset (((pmm_alloc p n).0, n) ∷ held) (pmm_alloc p n).1
  calls_free :
      {p : Pmm} (before after : List (ℕ × ℕ)) (ptr n : ℕ)
      → Calls mmap offset (before ++ ((ptr, n) ∷ after)) p
      → Calls mmap offset (before ++ after) (pmm_free p ptr n)

-- From `pmm_init` on, for a well-formed memory map of at least one frame in which frame 0 is not usable and some usable
-- entry has room for the bitmap, mapped behind an offset that does not wrap, after any sequence of calls in which
-- only pointers that are held are freed, each once and with its number of frames: the allocator is
-- valid, every pointer that is held is the address of a run of frames inside the memory, each frame is free, or in
-- exactly one of these runs, or taken by `pmm_init`, and the number of used frames is that of the frames in the runs.
pub pmm-Shared :
    (mmap : List Entry) (offset base : ℕ) (held : List (ℕ × ℕ)) (p : Pmm)
    → WellFormed mmap
    → page_size ≤ highest_addr 0 mmap
    → 0 < offset
    → highest_addr 0 mmap + offset < 2 ^ 64
    → bitmap_place (bytes_of mmap) mmap ≡ some base
    → owners mmap 0 ≡ 0
    → Calls mmap offset held p
    → Shared mmap base held p
unfolding holders held_frames
pmm-Shared mmap offset base _ _ formed some_memory mapped no_wrap found low calls_boot =
    let b = pmm_init-Booted mmap offset formed some_memory mapped no_wrap base found in
    record {
      valid = b.valid;
      total = b.total;
      runs = tt;
      used = b.none_used;
      once = λ x inside. ap bit_number (b.taken x inside) ∙ omega arith;
    }
pmm-Shared mmap offset base _ _ formed some_memory mapped no_wrap found low
      (calls_null {held} {p} n calls null) =
    null-Shared mmap base held p n low null
      (pmm-Shared mmap offset base held p formed some_memory mapped no_wrap found low calls)
pmm-Shared mmap offset base _ _ formed some_memory mapped no_wrap found low
      (calls_alloc {held} {p} n calls got) =
    alloc-Shared mmap base held p n got
      (pmm-Shared mmap offset base held p formed some_memory mapped no_wrap found low calls)
pmm-Shared mmap offset base _ _ formed some_memory mapped no_wrap found low
      (calls_free {p} before after ptr n calls) =
    free-Shared mmap base before after ptr n p
      (pmm-Shared mmap offset base _ p formed some_memory mapped no_wrap found low calls)
