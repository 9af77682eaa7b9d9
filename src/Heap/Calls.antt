-- ===== src/Heap/Calls.antt =====
-- Sequences of calls of the heap's functions.
use munt3os.Base.{ℕ, Bool, Option, none, some, List, [], ◌∷◌}
use munt3os.Heap.{Heap, khmalloc, khaligned_alloc, khcalloc, khrealloc, khfree}
use munt3os.Heap.Methods.{IsValid}

-- A call from outside, or a caller's write: the words before pointers are then any.
pub data Call : Type 0 where
  malloc : ℕ → Call
  aligned : ℕ → ℕ → Call
  calloc : ℕ → ℕ → Call
  realloc : (ℕ → Bool) → ℕ → ℕ → Call
  free : (ℕ → Bool) → ℕ → Call
  write : (ℕ → ℕ) → Call

-- The heap of what `khrealloc` gives.
abbrev pub heap_of : Option (ℕ × Heap) → Option Heap
heap_of none = none
heap_of (some r) = some r.1

abbrev pub heap_after : Call → Heap → Option Heap
heap_after (malloc size) h = some (khmalloc size h).1
heap_after (aligned alignment size) h = some (khaligned_alloc alignment size h).1
heap_after (calloc num size) h = some (khcalloc num size h).1
heap_after (realloc magic ptr size) h = heap_of (khrealloc magic ptr size h)
heap_after (free magic ptr) h = khfree magic ptr h
heap_after (write back) h = some (record h { back = back })

abbrev pub heap_after_all : List Call → Heap → Option Heap
heap_after_all [] h = some h
heap_after_all (c ∷ cs) h = elim (heap_after c h) [ none ↦ none | some k ↦ heap_after_all cs k ]

module _ (start limit : ℕ) where
  -- The heap that a call leaves, if it does, is valid.
  abbrev Kept : Option Heap → Type 0
  Kept none = Unit {0}
  Kept (some h) = IsValid start limit h
