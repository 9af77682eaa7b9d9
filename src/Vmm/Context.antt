-- ===== src/Vmm/Context.antt =====
-- `vmm_create_context`: the new context and the kernel's.
use munt3os.Base.{
  ℕ, suc, ◌/◌, ◌%◌, ◌^◌, ◌≤◌, ◌<◌, ◌≡◌, refl, sym, ap, ◌∙◌, ◌≢◌, inl, inr, true, false, none, some,
  List, ◌∷◌, arith, ltb, leb, ◌==◌, if◌then◌else◌, ltb→lt, lt→ltb, ltb→le, ==_iff, ==_refl,
  Bool-cases,
}
use mathlib.Core.Path.{subst}
use munt3os.Vmm.{
  Vmm, frame, is_present, is_huge, clear_table, copy_upper, create_from, vmm_create_context,
  vmm_virt_to_phys,
}
use munt3os.Vmm.Mapping.{IsValid, page, translate, translates}
use munt3os.Vmm.Tree.{
  part, index, leaf, Owner, NotIn, Fresh, IsTree, Serves, leaf-absent, leaf-same, with_owner,
  with_owner-other, with_owner_self, unused-ne, Fresh-with_owner,
}

module _ (kernel p : ℕ) (ps : List ℕ) (vm : Vmm) (valid : IsValid kernel vm)
    (unused : valid.owner p ≡ none) (others : NotIn p ps) (fresh : Fresh valid.owner ps) where
  abbrev entry2 : ℕ → ℕ → ℕ
  entry2 = copy_upper kernel p (clear_table p vm.entry)

  abbrev owner2 : Owner
  owner2 = with_owner p (3, 0) valid.owner

  other : (x : ℕ) (r : ℕ × ℕ) → valid.owner x ≡ some r → (x == p) ≡ false
  other x r owned = unused-ne valid.owner p x r unused owned

  owner2-kept : (x : ℕ) (r : ℕ × ℕ) → valid.owner x ≡ some r → owner2 x ≡ some r
  owner2-kept x r owned = with_owner-other p (3, 0) valid.owner x (other x r owned) ∙ owned

  entry2-other : (x i : ℕ) → (x == p) ≡ false → entry2 x i ≡ vm.entry x i
  unfolding copy_upper
  entry2-other x i away = rw (copy_upper, away)

  entry2-upper : (i : ℕ) → 256 ≤ i → i < 512 → entry2 p i ≡ vm.entry kernel i
  unfolding copy_upper
  entry2-upper i low high =
      let start : leb 256 i ≡ true = ground arith in
      rw (copy_upper, ==_refl p, start, lt→ltb i 512 high, other kernel (3, 0) valid.top)

  entry2-lower : (i : ℕ) → i < 256 → entry2 p i ≡ 0
  unfolding copy_upper
  entry2-lower i low =
      let below : leb 256 i ≡ false = ground arith in rw (copy_upper, ==_refl p, below)

  -- A present entry of an upper table is one of the old tables.
  old_entry :
      (x m pre i : ℕ)
      → owner2 x ≡ some (suc m, pre)
      → i < 512
      → is_present (entry2 x i) ≡ true
      → (y : ℕ) × (valid.owner y ≡ some (suc m, pre)) × (entry2 x i ≡ vm.entry y i)
  old_entry x m pre i owned high present = elim (Bool-cases (x == p)) [
    | inr away ↦
        (x, sym (with_owner-other p (3, 0) valid.owner x away) ∙ owned, entry2-other x i away)
    | inl here ↦
        let at_p : entry2 x i ≡ entry2 p i = ap (λ (q : ℕ). entry2 q i) ((==_iff x p).0 here) in
        let is_top : owner2 x ≡ some (3, 0) =
          ap owner2 ((==_iff x p).0 here) ∙ with_owner_self p (3, 0) valid.owner in
        elim (Bool-cases (ltb i 256)) [
          | inl low ↦
              let empty : is_present (entry2 x i) ≡ false =
                ap is_present (at_p ∙ entry2-lower i (ltb→lt i 256 low)) in
              cc
          | inr up ↦ (
            kernel,
            valid.top ∙ (sym is_top ∙ owned),
            at_p ∙ entry2-upper i (ltb→le i 256 up) high,
          )
        ]
  ]

  tree2 : IsTree owner2 entry2
  tree2 = record {
    next = λ x m pre i owned high present.
        let (y, was, e) = old_entry x m pre i owned high present in
        ap (λ (k : ℕ). owner2 (frame k)) e
        ∙ owner2-kept _ _ (valid.tree.next y m pre i was high (sym (ap is_present e) ∙ present));
    small = λ x m pre i owned high present.
        let (y, was, e) = old_entry x m pre i owned high present in
        ap is_huge e ∙ valid.tree.small y m pre i was high (sym (ap is_present e) ∙ present);
  }

  abbrev created : Vmm
  created = record { entry = entry2; pages = ps }

  new-IsValid : IsValid p created
  new-IsValid = record {
    owner = owner2;
    tree = tree2;
    fresh = Fresh-with_owner valid.owner p (3, 0) ps others fresh;
    top = with_owner_self p (3, 0) valid.owner;
  }

  kernel-IsValid : IsValid kernel created
  kernel-IsValid = record {
    owner = owner2;
    tree = tree2;
    fresh = Fresh-with_owner valid.owner p (3, 0) ps others fresh;
    top = owner2-kept kernel (3, 0) valid.top;
  }

  kept : (x i : ℕ) (r : ℕ × ℕ) → valid.owner x ≡ some r → entry2 x i ≡ vm.entry x i
  kept x i r owned = entry2-other x i (other x r owned)

  top-page : (virt : ℕ) → Serves valid.owner 3 kernel (page virt)
  top-page virt =
      let prefix : 0 ≡ part 4 (page virt) = omega arith in
      valid.top ∙ ap (λ (pre : ℕ). some (3, pre)) prefix

  kernel_leaf : (virt : ℕ) → leaf entry2 3 kernel (page virt) ≡ leaf vm.entry 3 kernel (page virt)
  kernel_leaf virt =
      leaf-same valid.owner vm.entry entry2 valid.tree kept 3 kernel (page virt) (top-page virt)

  kernel_translates :
      (virt : ℕ) → vmm_virt_to_phys kernel virt created ≡ vmm_virt_to_phys kernel virt vm
  kernel_translates virt =
      translates kernel created kernel-IsValid virt
      ∙ (ap (λ (e : ℕ). translate e virt) (kernel_leaf virt)
          ∙ sym (translates kernel vm valid virt))

  new_leaf :
      (virt : ℕ)
      → 256 ≤ index 3 (page virt)
      → leaf entry2 3 p (page virt) ≡ leaf entry2 3 kernel (page virt)
  unfolding leaf
  new_leaf virt up =
      ap
        (λ (e : ℕ).
          let rest = leaf entry2 2 (frame e) (page virt) in if is_present e then rest else 0)
        (entry2-upper (index 3 (page virt)) up (omega arith) ∙ sym (kept kernel _ (3, 0) valid.top))

  new_translates :
      (virt : ℕ)
      → vmm_virt_to_phys p virt created
        ≡ (if virt / 2 ^ 47 % 2 == 1 then vmm_virt_to_phys kernel virt vm else 0)
  new_translates virt = elim (Bool-cases (virt / 2 ^ 47 % 2 == 1)) [
    | inl up ↦
        let odd : virt / 2 ^ 47 % 2 ≡ 1 = (==_iff _ _).0 up in
        rw up (
          translates p created new-IsValid virt
          ∙ (ap (λ (e : ℕ). translate e virt)
                (new_leaf virt (omega (arith, odd)) ∙ kernel_leaf virt)
              ∙ sym (translates kernel vm valid virt)))
    | inr low ↦
        let even : virt / 2 ^ 47 % 2 ≢ 1 = λ same. ground (arith, low, same) in
        rw low (
          translates p created new-IsValid virt
          ∙ ap (λ (e : ℕ). translate e virt)
              (leaf-absent entry2 2 p (page virt)
                (ap is_present (entry2-lower (index 3 (page virt)) (omega (arith, even))))))
  ]

  pub create_from_lem :
      kernel ≢ 0
      → let r = create_from kernel (p ∷ ps) vm in
        ((r.0 ≡ some p) × (IsValid p r.1 × IsValid kernel r.1))
        × ((virt : ℕ)
            → (vmm_virt_to_phys kernel virt r.1 ≡ vmm_virt_to_phys kernel virt vm)
              × (vmm_virt_to_phys p virt r.1
                  ≡ (if virt / 2 ^ 47 % 2 == 1 then vmm_virt_to_phys kernel virt vm else 0)))
  unfolding create_from
  create_from_lem started =
      let chosen : (kernel == 0) ≡ false = ground (arith, started) in
      rw (create_from, chosen)
        (
          (refl, (new-IsValid, kernel-IsValid)),
          λ virt. (kernel_translates virt, new_translates virt),
        )

-- vmm_create_context after vmm_init, with a free page, where the kernel's tables are valid: it returns that
-- page as the top table; its tables and the kernel's are valid afterwards; the kernel's addresses lead where
-- they led; in the new context the addresses with bit 47 set lead where the kernel's do, the others nowhere.
pub vmm_create_context_lem :
    (kernel p : ℕ) (ps : List ℕ) (vm : Vmm)
    → IsValid kernel vm
    → kernel ≢ 0
    → vm.pages ≡ p ∷ ps
    → let r = vmm_create_context kernel vm in
      ((r.0 ≡ some p) × (IsValid p r.1 × IsValid kernel r.1))
      × ((virt : ℕ)
          → (vmm_virt_to_phys kernel virt r.1 ≡ vmm_virt_to_phys kernel virt vm)
            × (vmm_virt_to_phys p virt r.1
                ≡ (if virt / 2 ^ 47 % 2 == 1 then vmm_virt_to_phys kernel virt vm else 0)))
unfolding vmm_create_context
vmm_create_context_lem kernel p ps vm valid started pages =
    let fresh : Fresh valid.owner (p ∷ ps) = subst (Fresh valid.owner) pages valid.fresh in
    subst
      (λ (pages : List ℕ).
        let r = create_from kernel pages vm in
        ((r.0 ≡ some p) × (IsValid p r.1 × IsValid kernel r.1))
        × ((virt : ℕ)
            → (vmm_virt_to_phys kernel virt r.1 ≡ vmm_virt_to_phys kernel virt vm)
              × (vmm_virt_to_phys p virt r.1
                  ≡ (if virt / 2 ^ 47 % 2 == 1 then vmm_virt_to_phys kernel virt vm else 0))))
      (sym pages) (create_from_lem kernel p ps vm valid fresh.0.0 fresh.1.0 fresh.1.1 started)
