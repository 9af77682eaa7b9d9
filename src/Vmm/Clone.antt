-- ===== src/Vmm/Clone.antt =====
-- `free_pagetable_hierarchy`, which `vmm_destroy_context` and `vmm_free_cr3` call, and `vmm_clone_context`.
-- What is freed is the list of the calls of `pmm_free`, the address and the number of pages of each.
use munt3os.Base.{
  ℕ, zero, suc, ◌*◌, ◌/◌, ◌%◌, Bool, true, false, not, ◌&&◌, Option, none, some, List, [], ◌∷◌,
  ◌++◌, ltb, ◌==◌, if◌then◌else◌,
}
use Prim.Native.Nat.{bit_or}
use munt3os.Vmm.{
  Vmm, frame, is_present, is_huge, put_entry, get_next_level, with_table, vmm_create_context,
}

-- `entry & VMM_FLAG_NO_FREE`
abbrev pub is_kept : ℕ → Bool
is_kept e = e / 512 % 2 == 1

abbrev pub Frees : Type 0
Frees = List (ℕ × ℕ)

-- The body of the loop for one index, where the count for the last level is 0.
unfoldable pub each : ℕ → (ℕ → Frees) → Frees
each zero f = []
each (suc n) f = each n f ++ f n

unfoldable pub free_leaf : ℕ → ℕ → Frees
free_leaf count e = if is_present e && not (is_kept e) then (frame e, count) ∷ [] else []

-- The entry of an upper table, where `below` are the pages of the table it leads to.
unfoldable pub free_entry : ℕ → ℕ → Frees → Frees
free_entry huge_pages e below =
    if not (is_present e)
    then []
    else if is_huge e
    then free_leaf huge_pages e
    else below ++ ((frame e, 1) ∷ [])

-- `level` is 4 less the source's: 3 for the top table.
unfoldable pub free_pagetable_hierarchy : (ℕ → ℕ → ℕ) → ℕ → ℕ → Frees
free_pagetable_hierarchy entry zero t = each 512 (λ i. free_leaf 1 (entry t i))
free_pagetable_hierarchy entry (suc l) t = each (if suc l == 3 then 256 else 512) (λ i.
    let below = free_pagetable_hierarchy entry l (frame (entry t i)) in
    free_entry (if l == 0 then 512 else 512 * 512) (entry t i) below)

-- The pages that `vmm_destroy_context` and `vmm_free_cr3` free, but for the context itself.
unfoldable pub destroy_pages : ℕ → (ℕ → ℕ → ℕ) → Frees
unfolding free_pagetable_hierarchy
destroy_pages pml4 entry = free_pagetable_hierarchy entry 3 pml4 ++ ((pml4, 1) ∷ [])

unfoldable pub vmm_destroy_context : Option ℕ → Vmm → Frees
unfolding destroy_pages
vmm_destroy_context none vm = []
vmm_destroy_context (some pml4) vm = destroy_pages pml4 vm.entry

unfoldable pub vmm_free_cr3 : ℕ → Vmm → Frees
unfolding destroy_pages
vmm_free_cr3 cr3 vm = if cr3 == 0 then [] else destroy_pages cr3 vm.entry

-- A loop with `goto fail`: `f` for the indices from `i` on, as long as it says true.
unfoldable pub then_do : Bool × Vmm → (Vmm → Bool × Vmm) → Bool × Vmm
then_do (false, vm) f = (false, vm)
then_do (true, vm) f = f vm

unfoldable pub for_indices : ℕ → ℕ → (ℕ → Vmm → Bool × Vmm) → Vmm → Bool × Vmm
unfolding then_do
for_indices zero i f vm = (true, vm)
for_indices (suc n) i f vm = then_do (f i vm) (for_indices n (suc i) f)

-- `memcpy` of a page.
unfoldable pub copy_page : ℕ → ℕ → (ℕ → ℕ → ℕ) → ℕ → ℕ → ℕ
copy_page new old entry t i = if (t == new) && ltb i 512 then entry old i else entry t i

unfoldable pub clone_page : ℕ → ℕ → ℕ → List ℕ → Vmm → Bool × Vmm
unfolding copy_page
clone_page parent child i [] vm = (false, vm)
clone_page parent child i (p ∷ ps) vm =
    let e = vm.entry parent i in
    (
      true,
      record {
        entry = put_entry child i (bit_or p (e % 4096)) (copy_page p (frame e) vm.entry);
        pages = ps;
      },
    )

-- The loops of the clone, from the table of the parent and that of the child.
unfoldable pub clone_tables : ℕ → ℕ → ℕ → Vmm → Bool × Vmm
unfolding for_indices clone_page get_next_level with_table
clone_tables zero parent child vm =
    for_indices 512 0
      (λ i vm.
        if is_present (vm.entry parent i)
        then clone_page parent child i vm.pages vm
        else (true, vm))
      vm
clone_tables (suc l) parent child vm =
    for_indices (if suc l == 3 then 256 else 512) 0
      (λ i vm.
        let below = clone_tables l (frame (vm.entry parent i)) in
        if is_present (vm.entry parent i)
        then with_table (get_next_level child i true vm) below
        else (true, vm))
      vm

-- The table of the child, and what is freed where a page is missing.
unfoldable pub finish_clone : ℕ → Bool × Vmm → (Option ℕ × Vmm) × Frees
unfolding vmm_destroy_context
finish_clone child (true, vm) = ((some child, vm), [])
finish_clone child (false, vm) = ((none, vm), vmm_destroy_context (some child) vm)

unfoldable pub clone_into : ℕ → Option ℕ × Vmm → (Option ℕ × Vmm) × Frees
unfolding clone_tables finish_clone
clone_into parent (none, vm) = ((none, vm), [])
clone_into parent (some child, vm) = finish_clone child (clone_tables 3 parent child vm)

unfoldable pub vmm_clone_context : Option ℕ → ℕ → Vmm → (Option ℕ × Vmm) × Frees
unfolding vmm_create_context clone_into
vmm_clone_context none kernel vm = ((none, vm), [])
vmm_clone_context (some parent) kernel vm = clone_into parent (vmm_create_context kernel vm)
