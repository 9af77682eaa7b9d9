-- ===== src/Vmm/Destroy.antt =====
-- What `vmm_destroy_context` frees.
use munt3os.Base.{
  ℕ, zero, suc, ◌*◌, ◌/◌, ◌%◌, ◌^◌, ◌≤◌, ◌<◌, ◌≡◌, ap, ◌∙◌, inl, inr, Bool, true, false, not, ◌&&◌,
  some, List, [], ◌∷◌, arith, ℕ_discrete, ◌==◌, if◌then◌else◌, Bool-cases,
}
use mathlib.Core.List.{Memᴰ}
use mathlib.Core.List.Memᴰ
use mathlib.Core.Path.{subst}
use munt3os.Vmm.{Vmm, frame, is_present, is_huge}
use munt3os.Vmm.Clone.{
  is_kept, Frees, each, free_leaf, free_entry, free_pagetable_hierarchy, destroy_pages,
  vmm_destroy_context,
}
use munt3os.Vmm.Mapping.{IsValid, page}
use munt3os.Vmm.Tree.{part, index, Owner, IsTree, Serves, next-Serves}

-- The tables below `t` that the walk for `v` goes through, and its page if it is not to be kept.
unfoldable pub walk_pages : (ℕ → ℕ → ℕ) → ℕ → ℕ → ℕ → List ℕ
walk_pages entry zero t v =
    let e = entry t (index zero v) in if is_present e && not (is_kept e) then frame e ∷ [] else []
walk_pages entry (suc l) t v =
    let e = entry t (index (suc l) v) in
    let rest = walk_pages entry l (frame e) v in if is_present e then frame e ∷ rest else []

each-Mem : (n i : ℕ) (x : ℕ × ℕ) (f : ℕ → Frees) → i < n → Memᴰ x (f i) → Memᴰ x (each n f)
unfolding each
each-Mem zero i x f low m = absurd (omega (arith, low))
each-Mem (suc n) i x f low m = elim (ℕ_discrete i n) [
  | yes last ↦ Memᴰ.append_right (each n f) (subst (λ (j : ℕ). Memᴰ x (f j)) last m)
  | no other ↦ Memᴰ.append_left (f n) (each-Mem n i x f (omega (arith, low, other)) m)
]

abbrev pub pair : ℕ → ℕ × ℕ
pair n = (n, 1)

Mem-leaf :
    (e n : ℕ)
    → Memᴰ n (if is_present e && not (is_kept e) then frame e ∷ [] else [])
    → Memᴰ (pair n) (free_leaf 1 e)
unfolding free_leaf
Mem-leaf e n m = choose (is_present e && not (is_kept e)) m
  where
    choose :
        (b : Bool)
        → Memᴰ n (if b then frame e ∷ [] else [])
        → Memᴰ (pair n) (if b then pair (frame e) ∷ [] else [])
    choose true m = Memᴰ.head (ap pair (Memᴰ.eq_of_singleton m))
    choose false m = absurd (Memᴰ.not-nil m)

Mem-entry :
    (n huge_pages e : ℕ) (rest : List ℕ) (below : Frees)
    → is_present e ≡ true
    → is_huge e ≡ false
    → Memᴰ n (frame e ∷ rest)
    → (Memᴰ n rest → Memᴰ (pair n) below)
    → Memᴰ (pair n) (free_entry huge_pages e below)
unfolding free_entry
Mem-entry n huge_pages e rest below present small m deeper =
    rw (free_entry, present, small)
      (elim (Memᴰ.cases_cons m) [
        | inl same ↦ Memᴰ.append_right below (Memᴰ.head (ap pair same))
        | inr more ↦ Memᴰ.append_left ((frame e, 1) ∷ []) (deeper more)
      ])

Mem-free :
    (owner : Owner) (entry : ℕ → ℕ → ℕ) (v : ℕ)
    → IsTree owner entry
    → v < 2 ^ 35
    → (l t n : ℕ) → l ≤ 3
    → Serves owner l t v
    → Memᴰ n (walk_pages entry l t v)
    → Memᴰ (pair n) (free_pagetable_hierarchy entry l t)
unfolding walk_pages free_pagetable_hierarchy
Mem-free owner entry v tree lower zero t n top serves m =
    each-Mem 512 (index zero v) (pair n) (λ i. free_leaf 1 (entry t i)) (omega arith)
      (Mem-leaf (entry t (index zero v)) n m)
Mem-free owner entry v tree lower (suc l) t n top serves m =
    let e = entry t (index (suc l) v) in
    each-Mem (if suc l == 3 then 256 else 512) (index (suc l) v) (pair n)
      (λ i.
        let below = free_pagetable_hierarchy entry l (frame (entry t i)) in
        free_entry (if l == 0 then 512 else 512 * 512) (entry t i) below)
      (inside l top)
      (elim (Bool-cases (is_present e)) [
        | inr absent ↦ absurd (Memᴰ.not-nil (subst at absent m))
        | inl present ↦
            let small : is_huge e ≡ false =
              tree.small t l (part (suc (suc l)) v) _ serves (omega arith) present in
            Mem-entry n (if l == 0 then 512 else 512 * 512) e (walk_pages entry l (frame e) v)
              (free_pagetable_hierarchy entry l (frame e)) present small (subst at present m)
              (Mem-free owner entry v tree lower l (frame e) n (omega (arith, top))
                (next-Serves owner entry l t v tree serves present))
      ])
  where
    at : Bool → Type 0
    at b =
        let e = entry t (index (suc l) v) in
        Memᴰ n (if b then frame e ∷ walk_pages entry l (frame e) v else [])

    inside : (l : ℕ) → suc l ≤ 3 → index (suc l) v < (if suc l == 3 then 256 else 512)
    inside zero h = omega arith
    inside (suc zero) h = omega arith
    inside (suc (suc zero)) h = omega (arith, lower)
    inside (suc (suc (suc l))) h = absurd (omega (arith, h))

-- vmm_destroy_context of a context whose tables are valid, and an address with bit 47 clear: each table on
-- the walk for the address is freed, and so is the page that it leads to, unless that is marked NO_FREE.
pub destroy-Mem :
    (root : ℕ) (vm : Vmm) (virt n : ℕ)
    → IsValid root vm
    → virt / 2 ^ 47 % 2 ≡ 0
    → Memᴰ n (root ∷ walk_pages vm.entry 3 root (page virt))
    → Memᴰ (pair n) (vmm_destroy_context (some root) vm)
unfolding vmm_destroy_context destroy_pages
destroy-Mem root vm virt n valid lower m = elim (Memᴰ.cases_cons m) [
  | inl same ↦
      Memᴰ.append_right (free_pagetable_hierarchy vm.entry 3 root) (Memᴰ.head (ap pair same))
  | inr rest ↦
      let prefix : 0 ≡ part 4 (page virt) = omega arith in
      Memᴰ.append_left ((root, 1) ∷ []) (
        Mem-free valid.owner vm.entry (page virt) valid.tree (omega (arith, lower)) 3 root n
          (omega arith) (valid.top ∙ ap (λ (pre : ℕ). some (3, pre)) prefix) rest)
]
