-- ===== src/Vmm/Destroyed.antt =====
-- Which pages `vmm_destroy_context` frees, and no others.
use munt3os.Base.{
  ℕ, zero, suc, ◌+◌, ◌*◌, ◌/◌, ◌%◌, ◌^◌, ◌<◌, ◌≡◌, refl, sym, ap, ◌↔◌, ◌⊎◌, inl, inr, Bool, true,
  false, not, ◌&&◌, some, [], ◌∷◌, ◌++◌, arith, ◌==◌, if◌then◌else◌, Bool-cases,
}
use mathlib.Core.List.{Memᴰ}
use mathlib.Core.List.Memᴰ
use mathlib.Core.Path.{subst}
use munt3os.Vmm.{Vmm, frame, is_present, is_huge}
use munt3os.Vmm.Clone.{
  is_kept, Frees, each, free_leaf, free_entry, free_pagetable_hierarchy, destroy_pages,
  vmm_destroy_context,
}
use munt3os.Vmm.Mapping.{IsValid, page}
use munt3os.Vmm.Tree.{part, index, Owner, IsTree}
use munt3os.Vmm.Destroy.{walk_pages, pair, destroy-Mem}

each-cases :
    (n : ℕ) (x : ℕ × ℕ) (f : ℕ → Frees) → Memᴰ x (each n f) → (i : ℕ) × (i < n) × Memᴰ x (f i)
unfolding each
each-cases zero x f m = absurd (Memᴰ.not-nil m)
each-cases (suc n) x f m = elim (Memᴰ.append_cases (each n f) m) [
  | inr last ↦ (n, omega arith, last)
  | inl before ↦ let (i, low, there) = each-cases n x f before in (i, omega (arith, low), there)
]

leaf-cases :
    (e n c : ℕ)
    → Memᴰ (n, c) (free_leaf 1 e)
    → (c ≡ 1) × Memᴰ n (if is_present e && not (is_kept e) then frame e ∷ [] else [])
unfolding free_leaf
leaf-cases e n c m = choose (is_present e && not (is_kept e)) m
  where
    choose :
        (b : Bool)
        → Memᴰ (n, c) (if b then pair (frame e) ∷ [] else [])
        → (c ≡ 1) × Memᴰ n (if b then frame e ∷ [] else [])
    choose true m =
        let same = Memᴰ.eq_of_singleton m in
        (ap (λ (q : ℕ × ℕ). q.1) same, Memᴰ.head (ap (λ (q : ℕ × ℕ). q.0) same))
    choose false m = absurd (Memᴰ.not-nil m)

-- An entry of an upper table that is no large page.
entry-cases :
    (huge_pages e n c : ℕ) (below : Frees)
    → (is_present e ≡ true → is_huge e ≡ false)
    → Memᴰ (n, c) (free_entry huge_pages e below)
    → (is_present e ≡ true) × (((n ≡ frame e) × (c ≡ 1)) ⊎ Memᴰ (n, c) below)
unfolding free_entry
entry-cases huge_pages e n c below small m = elim (Bool-cases (is_present e)) [
  | inr absent ↦
      absurd
        (Memᴰ.not-nil (subst (λ (b : Bool). Memᴰ (n, c) (if not b then [] else rest)) absent m))
  | inl present ↦
      let shown = subst (λ (b : Bool). Memᴰ (n, c) (if not b then [] else rest)) present m in
      let kept : Memᴰ (n, c) (below ++ ((frame e, 1) ∷ [])) =
        subst
          (λ (b : Bool).
            Memᴰ (n, c) (if b then free_leaf huge_pages e else below ++ ((frame e, 1) ∷ [])))
          (small present) shown in
      (
        present,
        elim (Memᴰ.append_cases below kept) [
          | inl deeper ↦ inr deeper
          | inr here ↦
              let same = Memᴰ.eq_of_singleton here in
              inl (ap (λ (q : ℕ × ℕ). q.0) same, ap (λ (q : ℕ × ℕ). q.1) same)
        ],
      )
]
  where
    rest : Frees
    rest = if is_huge e then free_leaf huge_pages e else below ++ ((frame e, 1) ∷ [])

-- An address with this part.
with_part : (l q : ℕ) → (v : ℕ) × (part l v ≡ q)
with_part zero q = (q, refl)
with_part (suc l) q = let (v, e) = with_part l (q * 512) in (v, omega (arith, e))

abbrev entries : ℕ → ℕ
entries l = if l == 3 then 256 else 512

-- A page is freed because of an address that the table serves.
record Walked (entry : ℕ → ℕ → ℕ) (l t pre n c : ℕ) : Type 0 where
  pub one : c ≡ 1
  pub address : ℕ
  pub served : part (suc l) address ≡ pre
  pub low : index l address < entries l
  pub there : Memᴰ n (walk_pages entry l t address)

free-Walked :
    (owner : Owner) (entry : ℕ → ℕ → ℕ)
    → IsTree owner entry
    → (l t pre n c : ℕ) → owner t ≡ some (l, pre)
    → Memᴰ (n, c) (free_pagetable_hierarchy entry l t)
    → Walked entry l t pre n c
unfolding walk_pages free_pagetable_hierarchy
free-Walked owner entry tree zero t pre n c owned m =
    let (i, low, there) = each-cases 512 (n, c) (λ i. free_leaf 1 (entry t i)) m in
    let r = leaf-cases (entry t i) n c there in
    let v = pre * 512 + i in
    let same : index zero v ≡ i = omega (arith, low) in
    record {
      one = r.0;
      address = v;
      served = omega (arith, low);
      low = omega (arith, low);
      there =
          subst
            (λ (j : ℕ). Memᴰ n (
              if is_present (entry t j) && not (is_kept (entry t j))
              then frame (entry t j) ∷ []
              else []))
            (sym same) r.1;
    }
free-Walked owner entry tree (suc l) t pre n c owned m =
    let (i, low, there) = each-cases (entries (suc l)) (n, c) _ m in
    let few : i < 512 = ground (arith, low) in
    let e = entry t i in
    let r =
      entry-cases (if l == 0 then 512 else 512 * 512) e n c
        (free_pagetable_hierarchy entry l (frame e)) (tree.small t l pre i owned few) there in
    let made : (v : ℕ)
        → part (suc l) v ≡ pre * 512 + i
        → c ≡ 1
        → Memᴰ n (frame e ∷ walk_pages entry l (frame e) v)
        → Walked entry (suc l) t pre n c =
      λ v place one inner.
        let same : index (suc l) v ≡ i = omega (arith, place, few) in
        record {
          one = one;
          address = v;
          served = omega (arith, place, few);
          low = omega (arith, same, low);
          there =
              subst
                (λ (j : ℕ). Memᴰ n (
                  if is_present (entry t j)
                  then frame (entry t j) ∷ walk_pages entry l (frame (entry t j)) v
                  else []))
                (sym same) (rw (r.0) inner);
        } in
    elim r.1 [
      | inl here ↦
          let (v, place) = with_part (suc l) (pre * 512 + i) in
          made v place here.1 (Memᴰ.head here.0)
      | inr deeper ↦
          let w =
            free-Walked owner entry tree l (frame e) (pre * 512 + i) n c
              (tree.next t l pre i owned few r.0) deeper in
          made w.address w.served w.one (Memᴰ.tail w.there)
    ]

-- The context's top table, and what the walks for the addresses with bit 47 clear go through: the tables, and at the
-- end of each the page, if that is not marked NO_FREE. Each is one page.
abbrev pub IsOwn : ℕ → Vmm → ℕ → ℕ → Type 0
IsOwn root vm n c =
    (c ≡ 1)
    × ((n ≡ root)
        ⊎ ((virt : ℕ) × (virt / 2 ^ 47 % 2 ≡ 0) × Memᴰ n (walk_pages vm.entry 3 root (page virt))))

destroy-IsOwn :
    (root : ℕ) (vm : Vmm) (n c : ℕ)
    → IsValid root vm
    → Memᴰ (n, c) (vmm_destroy_context (some root) vm)
    → IsOwn root vm n c
unfolding vmm_destroy_context destroy_pages
destroy-IsOwn root vm n c valid m =
    elim (Memᴰ.append_cases (free_pagetable_hierarchy vm.entry 3 root) m) [
      | inr last ↦
          let same = Memᴰ.eq_of_singleton last in
          (ap (λ (q : ℕ × ℕ). q.1) same, inl (ap (λ (q : ℕ × ℕ). q.0) same))
      | inl early ↦
          let w = free-Walked valid.owner vm.entry valid.tree 3 root 0 n c valid.top early in
          let virt = w.address * 4096 in
          let low : w.address < 2 ^ 35 = omega (arith, w.served, w.low) in
          let same : page virt ≡ w.address = omega (arith, low) in
          (
            w.one,
            inr (
              virt,
              omega (arith, low),
              subst (λ (v : ℕ). Memᴰ n (walk_pages vm.entry 3 root v)) (sym same) w.there,
            ),
          )
    ]

IsOwn-destroy :
    (root : ℕ) (vm : Vmm) (n c : ℕ)
    → IsValid root vm
    → IsOwn root vm n c
    → Memᴰ (n, c) (vmm_destroy_context (some root) vm)
IsOwn-destroy root vm n c valid (one, own) =
    subst (λ (d : ℕ). Memᴰ (n, d) (vmm_destroy_context (some root) vm)) (sym one)
      (elim own [
        | inl top ↦ destroy-Mem root vm 0 n valid refl (Memᴰ.head top)
        | inr (virt, low, there) ↦ destroy-Mem root vm virt n valid low (Memᴰ.tail there)
      ])

-- `vmm_destroy_context` of a context whose tables are valid frees exactly its own pages: the top table, each table
-- that the walk for an address with bit 47 clear goes through, and the page that the walk leads to,
-- unless that is marked NO_FREE; and nothing else, so no page that only addresses
-- with bit 47 set lead to, and none that only entries of page tables marked NO_FREE lead to.
pub vmm_destroy_context_lem :
    (root : ℕ) (vm : Vmm) (n c : ℕ)
    → IsValid root vm
    → Memᴰ (n, c) (vmm_destroy_context (some root) vm) ↔ IsOwn root vm n c
vmm_destroy_context_lem root vm n c valid =
    (destroy-IsOwn root vm n c valid, IsOwn-destroy root vm n c valid)
