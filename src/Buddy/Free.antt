-- ===== src/Buddy/Free.antt =====
-- What `kmem_buddy_free` does with a block that was given.
use munt3os.Base.{
  ℕ, ◌+◌, ◌-◌, ◌≤◌, ◌≡◌, refl, ap, ◌∙◌, inl, inr, Bool, true, false, some, ◌∷◌, ◌++◌, arith, ◌==◌,
  sub_u64,
}
use mathlib.Core.List.{Memᴰ}
use mathlib.Core.List.Memᴰ
use mathlib.Core.Path.{subst}
use munt3os.Buddy.{
  Header, Buddy, block_size, block_header, max_order, put_free, merge_up, kmem_buddy_free,
}
use munt3os.Buddy.Cover.{size-pow, pow_positive}
use munt3os.Buddy.Valid.{Loose, held, IsValid, held-append}
use munt3os.Buddy.Moves.{list-IsValid}
use munt3os.Buddy.Shapes.{reorder-IsValid, free-IsValid}
use munt3os.Buddy.Halves.{at_order}
use munt3os.Buddy.Merge.{AllGiven, bounded, merge_up-InHand}

pub front-member :
    (before after : Loose) (r q : ℕ × Header)
    → Memᴰ q (before ++ (r ∷ after))
    → Memᴰ q (r ∷ (before ++ after))
front-member before after r q m = elim (Memᴰ.append_cases before m) [
  | inl early ↦ Memᴰ.tail (Memᴰ.append_left after early)
  | inr n ↦ elim (Memᴰ.cases_cons n) [
    | inl here ↦ Memᴰ.head here
    | inr later ↦ Memᴰ.tail (Memᴰ.append_right before later)
  ]
]

pub member-front :
    (before after : Loose) (r q : ℕ × Header)
    → Memᴰ q (r ∷ (before ++ after))
    → Memᴰ q (before ++ (r ∷ after))
member-front before after r q m = elim (Memᴰ.cases_cons m) [
  | inl here ↦ Memᴰ.append_right before (Memᴰ.head here)
  | inr n ↦ elim (Memᴰ.append_cases before n) [
    | inl early ↦ Memᴰ.append_left (r ∷ after) early
    | inr later ↦ Memᴰ.append_right before (Memᴰ.tail later)
  ]
]

pub front-IsValid :
    (b : Buddy) (before after : Loose) (r : ℕ × Header)
    → IsValid b (before ++ (r ∷ after))
    → IsValid b (r ∷ (before ++ after))
unfolding held
front-IsValid b before after r valid =
    reorder-IsValid b (before ++ (r ∷ after)) (r ∷ (before ++ after))
      (λ x. omega (arith, held-append x before after, held-append x before (r ∷ after)))
      (front-member before after r) (member-front before after r) valid

-- The block at the front is freed.
freed-IsValid :
    (b : Buddy) (loose : Loose) (a k : ℕ)
    → IsValid b ((a, at_order false k) ∷ loose)
    → AllGiven loose
    → IsValid (kmem_buddy_free (a + block_header) b) loose
unfolding kmem_buddy_free
freed-IsValid b loose a k valid given =
    let ptr = a + block_header in
    let read = valid.loose_headers a (at_order false k) (Memᴰ.head refl) in
    let room : 64 ≤ block_size k = omega (arith, size-pow k, pow_positive k) in
    let back : sub_u64 ptr block_header ≡ a =
      omega (arith, bounded b loose a k false valid, room) in
    let some_ptr : (ptr == 0) ≡ false = ground arith in
    let there : b.header (sub_u64 ptr block_header) ≡ some (at_order false k) =
      ap b.header back ∙ read.0 in
    let m = merge_up (max_order - k) k a b in
    let hand =
      merge_up-InHand (max_order - k) k a b loose false (omega (arith, read.1)) valid given in
    let marked = free-IsValid m.after loose m.block (at_order hand.flag m.order) true hand.valid in
    let done =
      list-IsValid (record m.after { header = put_free m.block true m.after.header }) loose m.block
        m.order marked in
    rw (kmem_buddy_free, some_ptr, there, back) done

-- A block that was given is freed.
pub kmem_buddy_free-IsValid :
    (b : Buddy) (before after : Loose) (a : ℕ) (h : Header)
    → AllGiven (before ++ ((a, h) ∷ after))
    → IsValid b (before ++ ((a, h) ∷ after))
    → IsValid (kmem_buddy_free (a + block_header) b) (before ++ after)
kmem_buddy_free-IsValid b before after a h given valid =
    let front = front-IsValid b before after (a, h) valid in
    let used : h.is_free ≡ false = given a h (Memᴰ.append_right before (Memᴰ.head refl)) in
    freed-IsValid b (before ++ after) a h.order
      (subst (λ (f : Bool). IsValid b ((a, at_order f h.order) ∷ (before ++ after))) used front)
      (λ z i m. given z i (member-front before after (a, h) (z, i) (Memᴰ.tail m)))
