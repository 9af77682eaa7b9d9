-- ===== src/Vmm/Tests.antt =====
-- The page tables on an empty top table.
use munt3os.Base.{
  ℕ, ◌+◌, ◌/◌, ◌%◌, ◌^◌, ◌<◌, ◌≡◌, refl, ◌⊎◌, true, ◌&&◌, none, some, [], ◌∷◌, arith, ◌==◌,
  if◌then◌else◌, length,
}
use mathlib.Core.List.{Memᴰ}
use munt3os.Vmm.{
  Vmm, frame, vmm_map, vmm_unmap, vmm_virt_to_phys, vmm_create_context, write_entry, get_next_level,
  new_level, with_table, next_level,
}
use munt3os.Vmm.Clone.{
  each, free_leaf, free_entry, free_pagetable_hierarchy, destroy_pages, vmm_destroy_context,
}
use munt3os.Vmm.Context.{vmm_create_context_lem}
use munt3os.Base.{◌↔◌}
use munt3os.Vmm.Destroyed.{IsOwn, vmm_destroy_context_lem}
use munt3os.Vmm.Mapping.{IsValid, page, vmm_map_lem, vmm_unmap_lem}

abbrev empty_vm : Vmm
empty_vm = record { entry = λ t i. 0; pages = 8192 ∷ 12288 ∷ 16384 ∷ 20480 ∷ [] }

empty_vm-IsValid : IsValid 4096 empty_vm
empty_vm-IsValid = record {
  owner = λ t. if t == 4096 then some (3, 0) else none;
  tree = record {
    next = λ t l pre i owned low present. absurd (ground (arith, present));
    small = λ t l pre i owned low present. absurd (ground (arith, present));
  };
  fresh = (
    (refl, refl),
    (
      ((λ e. ground (arith, e)), ((λ e. ground (arith, e)), ((λ e. ground (arith, e)), tt))),
      (
        (refl, refl),
        (
          ((λ e. ground (arith, e)), ((λ e. ground (arith, e)), tt)),
          ((refl, refl), (((λ e. ground (arith, e)), tt), ((refl, refl), (tt, tt)))),
        ),
      ),
    ),
  );
  top = refl;
}

abbrev mapped : Vmm
unfolding vmm_map
mapped = (vmm_map 4096 5242880 40960 2 empty_vm).1

mapped_page : vmm_virt_to_phys 4096 5242890 mapped ≡ 40970
unfolding vmm_map write_entry get_next_level new_level with_table vmm_virt_to_phys next_level
mapped_page = refl

other_page : vmm_virt_to_phys 4096 5246976 mapped ≡ 0
unfolding vmm_map write_entry get_next_level new_level with_table vmm_virt_to_phys next_level
other_page = refl

abbrev mapped-IsValid : IsValid 4096 mapped
unfolding mapped vmm_map
mapped-IsValid = (vmm_map_lem 4096 empty_vm 5242880 40960 2 empty_vm-IsValid (omega arith)).0.0

-- The first and third table go back, with the page and the top table.
freed :
    vmm_destroy_context (some 4096) mapped
    ≡ (40960, 1) ∷ (16384, 1) ∷ (12288, 1) ∷ (8192, 1) ∷ (4096, 1) ∷ []
unfolding vmm_destroy_context destroy_pages free_pagetable_hierarchy each free_leaf free_entry
    vmm_map write_entry get_next_level new_level with_table
freed = refl

vmm_map_lem_example :
    let r = vmm_map 4096 5242880 40960 2 empty_vm in
    (IsValid 4096 r.1 × ((r.0 ≡ true) ⊎ (length empty_vm.pages < 3)))
    × ((virt' : ℕ)
        → vmm_virt_to_phys 4096 virt' r.1 ≡ (
            if r.0 && (page virt' == page 5242880)
            then frame 40960 + virt' % 2 ^ 12
            else vmm_virt_to_phys 4096 virt' empty_vm))
vmm_map_lem_example = vmm_map_lem 4096 empty_vm 5242880 40960 2 empty_vm-IsValid (omega arith)

vmm_unmap_lem_example :
    let r = vmm_unmap 4096 5242881 mapped in
    IsValid 4096 r.1
    × ((virt' : ℕ)
        → vmm_virt_to_phys 4096 virt' r.1
          ≡ (if page virt' == page 5242881 then 0 else vmm_virt_to_phys 4096 virt' mapped))
vmm_unmap_lem_example = vmm_unmap_lem 4096 mapped 5242881 mapped-IsValid

vmm_create_context_lem_example :
    let r = vmm_create_context 4096 mapped in
    ((r.0 ≡ some 20480) × (IsValid 20480 r.1 × IsValid 4096 r.1))
    × ((virt : ℕ)
        → (vmm_virt_to_phys 4096 virt r.1 ≡ vmm_virt_to_phys 4096 virt mapped)
          × (vmm_virt_to_phys 20480 virt r.1
              ≡ (if virt / 2 ^ 47 % 2 == 1 then vmm_virt_to_phys 4096 virt mapped else 0)))
unfolding vmm_map write_entry get_next_level new_level with_table
vmm_create_context_lem_example =
    vmm_create_context_lem 4096 20480 [] mapped mapped-IsValid (λ e. ground (arith, e)) refl

vmm_destroy_context_lem_example :
    Memᴰ (8192, 1) (vmm_destroy_context (some 4096) mapped) ↔ IsOwn 4096 mapped 8192 1
vmm_destroy_context_lem_example = vmm_destroy_context_lem 4096 mapped 8192 1 mapped-IsValid
