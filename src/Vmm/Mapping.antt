-- ===== src/Vmm/Mapping.antt =====
-- `vmm_map`, `vmm_unmap` and `vmm_virt_to_phys` against the map of pages that the tables stand for.
use munt3os.Base.{
  ℕ, suc, ◌+◌, ◌*◌, ◌/◌, ◌%◌, ◌^◌, ◌<◌, ◌≡◌, refl, sym, ap, ◌∙◌, ◌⊎◌, inl, inr, Bool, true, false,
  ◌&&◌, none, some, arith, ltb, ◌==◌, if◌then◌else◌, ltb→lt, ltb→le, ==_iff, Bool-cases, length,
}
use Prim.Native.Nat.{bit_or}
use mathlib.Core.Path.{subst}
use munt3os.Base.{bit_or-add, bit_or_halves, bit_or-zero}
use munt3os.Vmm.{
  Vmm, frame, is_present, is_huge, get_next_level, next_level, write_entry, vmm_map, vmm_unmap,
  vmm_virt_to_phys, pml4_index, pdpt_index, pd_index, pt_index,
}
use munt3os.Vmm.Tree.{
  part, index, leaf, Owner, Fresh, IsTree, Serves, next-Serves, leaf-present, leaf-absent,
}
use munt3os.Vmm.Write.{write_at, Written}
use munt3os.Vmm.Outcome.{write_at-done, leaf-undone}
use munt3os.Vmm.Walk.{write_at-Written}

-- The number of the page of an address, of which the tables read 36 bits.
abbrev pub page : ℕ → ℕ
page virt = virt / 4096 % 2 ^ 36

-- What the last entry says of an address.
abbrev pub translate : ℕ → ℕ → ℕ
translate e virt = if is_present e then frame e + virt % 2 ^ 12 else 0

-- The tables below `root` form a tree of small pages, and the allocator's pages are none of them.
pub record IsValid (root : ℕ) (vm : Vmm) : Type 0 where
  pub owner : Owner
  pub tree : IsTree owner vm.entry
  pub fresh : Fresh owner vm.pages
  pub top : owner root ≡ some (3, 0)

pub write_entry-write_at :
    (root virt : ℕ) (allocate : Bool) (e : ℕ) (vm : Vmm)
    → write_entry root virt allocate e vm ≡ write_at 3 root (page virt) allocate e vm
unfolding write_entry write_at
write_entry-write_at root virt allocate e vm =
    let i3 : pml4_index virt ≡ index 3 (page virt) = omega arith in
    let i2 : pdpt_index virt ≡ index 2 (page virt) = omega arith in
    let i1 : pd_index virt ≡ index 1 (page virt) = omega arith in
    let i0 : pt_index virt ≡ index 0 (page virt) = omega arith in
    rw (write_entry, write_at, i3, i2, i1, i0)

module _ (t i : ℕ) (vm : Vmm) where
  next_level-present :
      is_present (vm.entry t i) ≡ true → next_level t i vm ≡ some (frame (vm.entry t i))
  unfolding next_level get_next_level
  next_level-present present = rw (next_level, get_next_level, present)

  next_level-absent : is_present (vm.entry t i) ≡ false → next_level t i vm ≡ none
  unfolding next_level get_next_level
  next_level-absent absent = rw (next_level, get_next_level, absent)

-- A walk through the upper tables ends in the entry that the tree has for the page.
module _ (owner : Owner) (vm : Vmm) (tree : IsTree owner vm.entry) (virt : ℕ) where
  at_pt :
      (pt : ℕ)
      → (let e = vm.entry pt (pt_index virt) in if is_present e then frame e + virt % 2 ^ 12 else 0)
        ≡ translate (leaf vm.entry 0 pt (page virt)) virt
  unfolding leaf
  at_pt pt =
      let i : pt_index virt ≡ index 0 (page virt) = omega arith in
      ap (λ (j : ℕ). translate (vm.entry pt j) virt) i

  -- The step at a table of level `suc l`, where the walk reads `i`; `big` is for a large page.
  step :
      (l t i big : ℕ) (below : ℕ → ℕ)
      → Serves owner (suc l) t (page virt)
      → i ≡ index (suc l) (page virt)
      → ((n : ℕ)
          → Serves owner l n (page virt)
          → below n ≡ translate (leaf vm.entry l n (page virt)) virt)
      → elim (next_level t i vm) [
        | none ↦ 0
        | some n ↦ if is_huge (vm.entry t i) then big else below n
      ]
        ≡ translate (leaf vm.entry (suc l) t (page virt)) virt
  step l t i big below serves place rest =
      let at : (j : ℕ) → Type 0 = λ j.
        elim (next_level t j vm) [
          | none ↦ 0
          | some n ↦ if is_huge (vm.entry t j) then big else below n
        ]
        ≡ translate (leaf vm.entry (suc l) t (page virt)) virt in
      subst at (sym place)
        (elim (Bool-cases (is_present (vm.entry t (index (suc l) (page virt))))) [
          | inr absent ↦
              rw (next_level-absent t (index (suc l) (page virt)) vm absent) (
                sym
                  (ap (λ (e : ℕ). translate e virt) (leaf-absent vm.entry l t (page virt) absent)))
          | inl present ↦
              let small : is_huge (vm.entry t (index (suc l) (page virt))) ≡ false =
                tree.small t l (part (suc (suc l)) (page virt)) _ serves (omega arith) present in
              let n = frame (vm.entry t (index (suc l) (page virt))) in
              rw (next_level-present t (index (suc l) (page virt)) vm present, small)
                (rest n (next-Serves owner vm.entry l t (page virt) tree serves present)
                  ∙ sym (
                      ap (λ (e : ℕ). translate e virt)
                        (leaf-present vm.entry l t (page virt) present)))
        ])

  pub virt_to_phys-leaf :
      (root : ℕ)
      → Serves owner 3 root (page virt)
      → vmm_virt_to_phys root virt vm ≡ translate (leaf vm.entry 3 root (page virt)) virt
  unfolding vmm_virt_to_phys
  virt_to_phys-leaf root serves = step 2 root (pml4_index virt) _ _ serves (omega arith) (λ pdpt s2.
      step 1 pdpt (pdpt_index virt) _ _ s2 (omega arith)
        (λ pd s1. step 0 pd (pd_index virt) _ _ s1 (omega arith) (λ pt s0. at_pt pt)))

write_entry-done :
    (root virt e : ℕ) (vm : Vmm)
    → ((write_entry root virt true e vm).0 ≡ true) ⊎ (length vm.pages < 3)
write_entry-done root virt e vm = elim (Bool-cases (ltb (length vm.pages) 3)) [
  | inl few ↦ inr (ltb→lt _ _ few)
  | inr enough ↦ inl (
      ap (λ (r : Bool × Vmm). r.0) (write_entry-write_at root virt true e vm)
      ∙ write_at-done (page virt) e 3 root vm (ltb→le _ _ enough))
]

leaf-unmapped :
    (root virt : ℕ) (vm : Vmm)
    → (write_entry root virt false 0 vm).0 ≡ false
    → leaf vm.entry 3 root (page virt) ≡ 0
leaf-unmapped root virt vm undone =
    leaf-undone (page virt) 0 3 root vm
      (ap (λ (r : Bool × Vmm). r.0) (sym (write_entry-write_at root virt false 0 vm)) ∙ undone)

-- The entry that `vmm_map` writes.
abbrev pub mapping : ℕ → ℕ → ℕ
mapping phys flags = bit_or (bit_or (frame phys) flags) 1

module _ (phys flags : ℕ) (low : flags < 4096) where
  mapping-sum : mapping phys flags ≡ (frame phys + flags) / 2 * 2 + 1
  mapping-sum =
      let with_flags : bit_or (frame phys) flags ≡ frame phys + flags =
        bit_or-add 12 (phys / 4096 % 2 ^ 40) flags low in
      ap (λ (x : ℕ). bit_or x 1) with_flags
      ∙ ground (
        arith,
        bit_or_halves (frame phys + flags) 1,
        bit_or-zero ((frame phys + flags) / 2) ((frame phys + flags) / 2) (omega arith),
      )

  frame-mapping : frame (mapping phys flags) ≡ frame phys
  frame-mapping = ap frame mapping-sum ∙ omega (arith, low)

  mapping-is_present : is_present (mapping phys flags) ≡ true
  mapping-is_present =
      let odd : mapping phys flags % 2 ≡ 1 = ap (λ (e : ℕ). e % 2) mapping-sum ∙ omega arith in
      ground (arith, odd)

  translate-mapping : (virt : ℕ) → translate (mapping phys flags) virt ≡ frame phys + virt % 2 ^ 12
  translate-mapping virt = rw (mapping-is_present, frame-mapping)

module _ (root : ℕ) (vm : Vmm) (valid : IsValid root vm) where
  top-Serves : (virt : ℕ) → Serves valid.owner 3 root (page virt)
  top-Serves virt =
      let prefix : 0 ≡ part 4 (page virt) = omega arith in
      valid.top ∙ ap (λ (pre : ℕ). some (3, pre)) prefix

  pub translates :
      (virt : ℕ) → vmm_virt_to_phys root virt vm ≡ translate (leaf vm.entry 3 root (page virt)) virt
  translates virt = virt_to_phys-leaf valid.owner vm valid.tree virt root (top-Serves virt)

  written :
      (virt e : ℕ) (allocate : Bool)
      → let r = write_entry root virt allocate e vm in
        Written valid.owner 3 root (page virt) e vm r.0 r.1
  written virt e allocate =
      subst (λ (r : Bool × Vmm). Written valid.owner 3 root (page virt) e vm r.0 r.1)
        (sym (write_entry-write_at root virt allocate e vm))
        (write_at-Written valid.owner 3 root (page virt) e allocate vm valid.tree valid.fresh
          (top-Serves virt))

  pub write_entry-IsValid :
      (virt e : ℕ) (allocate : Bool) → IsValid root (write_entry root virt allocate e vm).1
  write_entry-IsValid virt e allocate =
      let w = written virt e allocate in
      record {
        owner = w.owner';
        tree = w.tree;
        fresh = w.fresh;
        top = w.kept root (3, 0) valid.top;
      }

  pub translate-write_entry :
      (virt e : ℕ) (allocate : Bool) (virt' : ℕ)
      → let r = write_entry root virt allocate e vm in
        vmm_virt_to_phys root virt' r.1 ≡ (
          if r.0 && (page virt' == page virt)
          then translate e virt'
          else vmm_virt_to_phys root virt' vm)
  translate-write_entry virt e allocate virt' =
      let r = write_entry root virt allocate e vm in
      let after =
        virt_to_phys-leaf (write_entry-IsValid virt e allocate).owner r.1
          (write_entry-IsValid virt e allocate).tree virt' root
          ((write_entry-IsValid virt e allocate).top
            ∙ ap (λ (pre : ℕ). some (3, pre))
                (let prefix : 0 ≡ part 4 (page virt') = omega arith in prefix)) in
      after
      ∙ (ap (λ (e : ℕ). translate e virt')
            ((written virt e allocate).found (page virt') (omega arith))
          ∙ choose (r.0 && (page virt' == page virt)) (translates virt'))
    where
      choose :
          (b : Bool)
          → vmm_virt_to_phys root virt' vm ≡ translate (leaf vm.entry 3 root (page virt')) virt'
          → translate (if b then e else leaf vm.entry 3 root (page virt')) virt'
            ≡ (if b then translate e virt' else vmm_virt_to_phys root virt' vm)
      choose true h = refl
      choose false h = sym h

-- vmm_map on valid tables, for an address, a frame and flags below 4096: the tables are valid afterwards;
-- with three pages free it says true; where it says true, the addresses of that page lead to the frame with
-- their last 12 bits; all other addresses lead where they led, and all do where it says false.
pub vmm_map_lem :
    (root : ℕ) (vm : Vmm) (virt phys flags : ℕ)
    → IsValid root vm
    → flags < 4096
    → let r = vmm_map root virt phys flags vm in
      (IsValid root r.1 × ((r.0 ≡ true) ⊎ (length vm.pages < 3)))
      × ((virt' : ℕ)
          → vmm_virt_to_phys root virt' r.1 ≡ (
              if r.0 && (page virt' == page virt)
              then frame phys + virt' % 2 ^ 12
              else vmm_virt_to_phys root virt' vm))
unfolding vmm_map
vmm_map_lem root vm virt phys flags valid low =
    let e = mapping phys flags in
    (
      (write_entry-IsValid root vm valid virt e true, write_entry-done root virt e vm),
      λ virt'.
          translate-write_entry root vm valid virt e true virt'
          ∙ ap
              (λ (a : ℕ).
                if (write_entry root virt true e vm).0 && (page virt' == page virt)
                then a
                else vmm_virt_to_phys root virt' vm)
              (translate-mapping phys flags low virt'),
    )

-- vmm_unmap on valid tables: they are valid afterwards, the addresses of the page lead nowhere, and all
-- others lead where they led.
pub vmm_unmap_lem :
    (root : ℕ) (vm : Vmm) (virt : ℕ)
    → IsValid root vm
    → let r = vmm_unmap root virt vm in
      IsValid root r.1
      × ((virt' : ℕ)
          → vmm_virt_to_phys root virt' r.1
            ≡ (if page virt' == page virt then 0 else vmm_virt_to_phys root virt' vm))
unfolding vmm_unmap
vmm_unmap_lem root vm virt valid = (
  write_entry-IsValid root vm valid virt 0 false,
  λ virt'.
      translate-write_entry root vm valid virt 0 false virt'
      ∙ drop_done (write_entry root virt false 0 vm).0 (page virt' == page virt) (λ undone same.
        translates root vm valid virt'
        ∙ ap (λ (e : ℕ). translate e virt')
            (ap (leaf vm.entry 3 root) ((==_iff _ _).0 same) ∙ leaf-unmapped root virt vm undone)),
)
  where
    drop_done :
        {n : ℕ} (done same : Bool)
        → (done ≡ false → same ≡ true → n ≡ 0)
        → (if done && same then 0 else n) ≡ (if same then 0 else n)
    drop_done true same h = refl
    drop_done false true h = h refl refl
    drop_done false false h = refl
