-- ===== src/Vmm.antt =====
-- krnl/mem/vmm.c: the four levels of page tables. A table is named by its physical address, which
-- `phys_to_virt` maps one to one; `entry` is what stands in a table, and `pages` what the next calls of
-- `pmm_alloc(1)` return, NULL when it is empty. The flushes of the processor are left out.
pub mod Clone
pub mod Context
pub mod Destroy
pub mod Destroyed
pub mod Mapping
pub mod NewTable
pub mod Outcome
pub mod Tree
pub mod Walk
pub mod Write
mod Tests
use munt3os.Base.{
  ℕ, zero, suc, ◌+◌, ◌-◌, ◌*◌, ◌/◌, ◌%◌, ◌^◌, ◌≤◌, ◌<◌, min, max, ◌≡◌, refl, sym, ap, ap₂, ◌∙◌, ◌≢◌,
  ◌↔◌, ◌⊎◌, inl, inr, Bool, true, false, not, ◌&&◌, ◌||◌, Option, none, some, List, [], ◌∷◌, ◌++◌,
  map, append-nil, append_assoc, arith, ℕ_discrete, ltb, leb, ◌==◌, if◌then◌else◌, ltb→lt, lt→ltb,
  ltb→le, le→ltb, leb→le, ==_iff, ==_refl, suc-ne-zero, zero-lt-suc, Bool-cases, Option-cases,
  length, get_elem?, get_or, set, take, drop, replicate, length-append, length-set,
  length-replicate, length-take, length-drop, take_last, drop-nil, drop_all, take_all, drop-append,
  drop-drop, take_last-append, take_last-append_long, take_last_all, take-append-drop, get_or-set,
  get_or_ext, get_or-replicate, mod-wrap, u64, u32, u8, add_u64, sub_u64, add_u32, sub_u32, mul_u32,
  mul_u64, page_size, ℤ, pos, negsuc, sub_ℕ, neg,
}
use Prim.Native.Nat.{bit_or}

-- The `entries` of the tables, and the pages of the allocator.
pub record Vmm : Type 0 where
  pub entry : ℕ → ℕ → ℕ
  pub pages : List ℕ

-- `entry & VMM_PHYS_MASK`
abbrev pub frame : ℕ → ℕ
frame e = e / 4096 % 2 ^ 40 * 4096

-- `entry & VMM_FLAG_PRESENT`, `entry & VMM_FLAG_HUGE`
abbrev pub is_present : ℕ → Bool
is_present e = e % 2 == 1

abbrev pub is_huge : ℕ → Bool
is_huge e = e / 128 % 2 == 1

abbrev pub put_entry : ℕ → ℕ → ℕ → (ℕ → ℕ → ℕ) → ℕ → ℕ → ℕ
put_entry table index e entry t i = if (t == table) && (i == index) then e else entry t i

-- A page with 512 zeros.
abbrev pub clear_table : ℕ → (ℕ → ℕ → ℕ) → ℕ → ℕ → ℕ
clear_table table entry t i = if t == table then 0 else entry t i

-- The part of `get_next_level` that makes a table of the page that `pmm_alloc` gives.
unfoldable pub new_level : ℕ → ℕ → List ℕ → Vmm → Option ℕ × Vmm
new_level table index [] vm = (none, vm)
new_level table index (p ∷ ps) vm = (
  some p,
  record { entry = put_entry table index (bit_or p 7) (clear_table p vm.entry); pages = ps },
)

unfoldable pub get_next_level : ℕ → ℕ → Bool → Vmm → Option ℕ × Vmm
unfolding new_level
get_next_level table index allocate vm =
    let e = vm.entry table index in
    if is_present e
    then (some (frame e), vm)
    else if not allocate
    then (none, vm)
    else new_level table index vm.pages vm

-- The indices of an address.
abbrev pub pml4_index : ℕ → ℕ
pml4_index virt = virt / 2 ^ 39 % 512

abbrev pub pdpt_index : ℕ → ℕ
pdpt_index virt = virt / 2 ^ 30 % 512

abbrev pub pd_index : ℕ → ℕ
pd_index virt = virt / 2 ^ 21 % 512

abbrev pub pt_index : ℕ → ℕ
pt_index virt = virt / 2 ^ 12 % 512

-- The walk that `vmm_map` and `vmm_unmap` share, to the write of the last entry.
unfoldable pub with_table : Option ℕ × Vmm → (ℕ → Vmm → Bool × Vmm) → Bool × Vmm
with_table (none, vm) f = (false, vm)
with_table (some t, vm) f = f t vm

unfoldable pub write_entry : ℕ → ℕ → Bool → ℕ → Vmm → Bool × Vmm
unfolding get_next_level with_table
write_entry pml4 virt allocate e vm =
    with_table (get_next_level pml4 (pml4_index virt) allocate vm) (λ pdpt vm.
      with_table (get_next_level pdpt (pdpt_index virt) allocate vm) (λ pd vm.
        with_table (get_next_level pd (pd_index virt) allocate vm)
          (λ pt vm. (true, record vm { entry = put_entry pt (pt_index virt) e vm.entry }))))

unfoldable pub vmm_map : ℕ → ℕ → ℕ → ℕ → Vmm → Bool × Vmm
unfolding write_entry
vmm_map pml4 virt phys flags vm =
    write_entry pml4 virt true (bit_or (bit_or (frame phys) flags) 1) vm

unfoldable pub vmm_unmap : ℕ → ℕ → Vmm → Bool × Vmm
unfolding write_entry
vmm_unmap pml4 virt vm = write_entry pml4 virt false 0 vm

-- `get_next_level` that does not allocate.
unfoldable pub next_level : ℕ → ℕ → Vmm → Option ℕ
unfolding get_next_level
next_level table index vm = (get_next_level table index false vm).0

unfoldable pub vmm_virt_to_phys : ℕ → ℕ → Vmm → ℕ
unfolding next_level
vmm_virt_to_phys pml4 virt vm =
    let e4 = vm.entry pml4 (pml4_index virt) in
    let in_pt : ℕ → ℕ = λ pt.
      let e = vm.entry pt (pt_index virt) in if is_present e then frame e + virt % 2 ^ 12 else 0 in
    let in_pd : ℕ → ℕ = λ pd.
      let e = vm.entry pd (pd_index virt) in
      elim (next_level pd (pd_index virt) vm) [
        | none ↦ 0
        | some pt ↦ if is_huge e then e / 2 ^ 21 % 2 ^ 31 * 2 ^ 21 + virt % 2 ^ 21 else in_pt pt
      ] in
    let in_pdpt : ℕ → ℕ = λ pdpt.
      let e = vm.entry pdpt (pdpt_index virt) in
      elim (next_level pdpt (pdpt_index virt) vm) [
        | none ↦ 0
        | some pd ↦ if is_huge e then e / 2 ^ 30 % 2 ^ 22 * 2 ^ 30 + virt % 2 ^ 30 else in_pd pd
      ] in
    elim (next_level pml4 (pml4_index virt) vm) [
      | none ↦ 0
      | some pdpt ↦ if is_huge e4 then frame e4 + virt % 2 ^ 39 else in_pdpt pdpt
    ]

-- The entries from `i` to 511, copied from the kernel's table.
unfoldable pub copy_upper : ℕ → ℕ → (ℕ → ℕ → ℕ) → ℕ → ℕ → ℕ
copy_upper kernel table entry t i =
    if (t == table) && (leb 256 i && ltb i 512) then entry kernel i else entry t i

-- `vmm_create_context`, where `kmalloc` gives a context; `kernel` is 0 before `vmm_init`. The table of
-- the new context, if there is a page for it.
unfoldable pub create_from : ℕ → List ℕ → Vmm → Option ℕ × Vmm
unfolding copy_upper
create_from kernel [] vm = (none, vm)
create_from kernel (p ∷ ps) vm =
    let cleared = clear_table p vm.entry in
    (
      some p,
      record { entry = if kernel == 0 then cleared else copy_upper kernel p cleared; pages = ps },
    )

unfoldable pub vmm_create_context : ℕ → Vmm → Option ℕ × Vmm
unfolding create_from
vmm_create_context kernel vm = create_from kernel vm.pages vm
