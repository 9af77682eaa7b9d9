-- ===== src/Vmm/Outcome.antt =====
-- When a write of a last entry is done.
use munt3os.Base.{
  ℕ, zero, suc, ◌≤◌, ◌≡◌, refl, sym, ◌∙◌, inl, inr, true, false, Option, List, [], ◌∷◌, arith,
  Bool-cases, length,
}
use mathlib.Core.Path.{subst}
use munt3os.Vmm.{Vmm, frame, is_present, get_next_level, new_level, with_table}
use munt3os.Vmm.Tree.{index, leaf, leaf-present, leaf-absent}
use munt3os.Vmm.Write.{write_at}

-- With a page for each level that may lack a table.
module _ (v e : ℕ) where
  made-done :
      (l t : ℕ) (vm : Vmm)
      → ((n : ℕ) (vm1 : Vmm) → l ≤ length vm1.pages → (write_at l n v true e vm1).0 ≡ true)
      → (pages : List ℕ) → suc l ≤ length pages
      → (with_table (new_level t (index (suc l) v) pages vm) (λ n vm. write_at l n v true e vm)).0
        ≡ true
  unfolding new_level with_table
  made-done l t vm rest [] enough = absurd (omega (arith, enough))
  made-done l t vm rest (p ∷ ps) enough = rest p _ (omega (arith, enough))

  pub write_at-done :
      (l t : ℕ) (vm : Vmm) → l ≤ length vm.pages → (write_at l t v true e vm).0 ≡ true
  unfolding write_at get_next_level with_table
  write_at-done zero t vm enough = refl
  write_at-done (suc l) t vm enough =
      elim (Bool-cases (is_present (vm.entry t (index (suc l) v)))) [
        | inl present ↦
            rw (write_at, get_next_level, present, with_table)
              (write_at-done l (frame (vm.entry t (index (suc l) v))) vm (omega (arith, enough)))
        | inr absent ↦
            subst
              (λ (g : Option ℕ × Vmm). (with_table g (λ n vm. write_at l n v true e vm)).0 ≡ true)
              (sym (rw absent refl))
              (made-done l t vm (λ n vm1 h. write_at-done l n vm1 h) vm.pages enough)
      ]

  -- A walk that makes no table and is not done found none.
  pub leaf-undone :
      (l t : ℕ) (vm : Vmm) → (write_at l t v false e vm).0 ≡ false → leaf vm.entry l t v ≡ 0
  unfolding write_at get_next_level with_table
  leaf-undone zero t vm undone = absurd (ground (arith, undone))
  leaf-undone (suc l) t vm undone = elim (Bool-cases (is_present (vm.entry t (index (suc l) v)))) [
    | inl present ↦
        leaf-present vm.entry l t v present
        ∙ leaf-undone l (frame (vm.entry t (index (suc l) v))) vm
            (sym (rw (write_at, get_next_level, present, with_table)) ∙ undone)
    | inr absent ↦ leaf-absent vm.entry l t v absent
  ]
