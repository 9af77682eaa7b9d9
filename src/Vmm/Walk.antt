-- ===== src/Vmm/Walk.antt =====
-- The write of a last entry, with the walk to it.
use munt3os.Base.{
  ℕ, zero, suc, ◌*◌, ◌/◌, ◌%◌, ◌^◌, ◌<◌, ◌≡◌, refl, sym, ap, ◌∙◌, ◌≢◌, ◌⊎◌, inl, inr, Bool, true,
  false, ◌&&◌, Option, none, some, List, [], ◌∷◌, arith, ℕ_discrete, ◌==◌, if◌then◌else◌, ==_iff,
  Bool-cases,
}
use Prim.Native.Nat.{bit_or}
use mathlib.Core.Path.{subst}
use munt3os.Vmm.{Vmm, frame, is_present, new_level, get_next_level, with_table}
use munt3os.Vmm.Tree.{
  part, index, leaf, Owner, Fresh, IsTree, part-suc, Serves, next-Serves, leaf-present, leaf-absent,
  leaf-frame, leaf-empty,
}
use munt3os.Vmm.NewTable.{
  owner1, entry1, owner1-kept, owner1-new, entry1-empty, entry1-pointer, entry1-other, tree1,
  fresh1, frame-pointer, pointer-is_present,
}
use munt3os.Vmm.Write.{write_at, Written, unwritten, Written-zero, other_table}

elsewhere :
    (l m pre v : ℕ)
    → (suc l < m) ⊎ (pre ≢ part (suc m) v)
    → (m ≢ suc l) ⊎ (pre ≢ part (suc (suc l)) v)
elsewhere l m pre v (inl low) = inl (omega (arith, low))
elsewhere l m pre v (inr ne) = elim (ℕ_discrete m (suc l)) [
  | yes level ↦ inr (λ same. ne (same ∙ ap (λ (k : ℕ). part (suc k) v) (sym level)))
  | no other ↦ inl other
]

-- The index of `w` and of `v` at the level differ: the walk for `w` leaves that for `v`.
leaf_apart :
    (owner : Owner) (entry entry' : ℕ → ℕ → ℕ) (l t v w : ℕ)
    → IsTree owner entry
    → Serves owner (suc l) t w
    → ((x m pre i : ℕ) → owner x ≡ some (m, pre) → pre ≢ part (suc m) v → entry' x i ≡ entry x i)
    → entry' t (index (suc l) w) ≡ entry t (index (suc l) w)
    → part (suc l) w ≢ part (suc l) v
    → leaf entry' (suc l) t w ≡ leaf entry (suc l) t w
leaf_apart owner entry entry' l t v w tree serves same kept differ =
    let i = index (suc l) w in
    elim (Bool-cases (is_present (entry t i))) [
      | inr absent ↦
          leaf-absent entry' l t w (ap is_present kept ∙ absent)
          ∙ sym (leaf-absent entry l t w absent)
      | inl present ↦
          leaf-present entry' l t w (ap is_present kept ∙ present)
          ∙ (ap (λ (e : ℕ). leaf entry' l (frame e) w) kept
              ∙ (leaf-frame owner entry entry' v tree same l (frame (entry t i)) w
                    (next-Serves owner entry l t w tree serves present) differ
                  ∙ sym (leaf-present entry l t w present)))
    ]

apart_ne : (l u v : ℕ) (done : Bool) → part (suc l) u ≢ part (suc l) v → (done && (u == v)) ≡ false
apart_ne l u v done differ = elim (Bool-cases (u == v)) [
  | inl same ↦ absurd (differ (ap (part (suc l)) ((==_iff u v).0 same)))
  | inr other ↦ ground (arith, other)
]

-- What the walk finds once the table `t` leads to `n`, where the rest of the write was done.
module _ (owner : Owner) (l t v e n : ℕ) (entry entry' : ℕ → ℕ → ℕ) (tree : IsTree owner entry)
    (serves : Serves owner (suc l) t v) (done : Bool)
    (leads : is_present (entry' t (index (suc l) v)) ≡ true)
    (to : frame (entry' t (index (suc l) v)) ≡ n)
    (same : (x m pre i : ℕ)
      → owner x ≡ some (m, pre)
      → pre ≢ part (suc m) v
      → entry' x i ≡ entry x i)
    (here : (i : ℕ) → i ≢ index (suc l) v → entry' t i ≡ entry t i)
    (below : (w : ℕ)
      → part (suc l) w ≡ part (suc l) v
      → leaf entry' l n w ≡ (if done && (w == v) then e else leaf entry (suc l) t w)) where
  along :
      (w : ℕ)
      → part (suc l) w ≡ part (suc l) v
      → leaf entry' (suc l) t w ≡ (if done && (w == v) then e else leaf entry (suc l) t w)
  along w together =
      let i : index (suc l) w ≡ index (suc l) v = ap (λ (q : ℕ). q % 512) together in
      leaf-present entry' l t w (ap (λ (j : ℕ). is_present (entry' t j)) i ∙ leads)
      ∙ (ap (λ (x : ℕ). leaf entry' l x w) (ap (λ (j : ℕ). frame (entry' t j)) i ∙ to)
          ∙ below w together)

  level-found :
      (w : ℕ)
      → part (suc (suc l)) w ≡ part (suc (suc l)) v
      → leaf entry' (suc l) t w ≡ (if done && (w == v) then e else leaf entry (suc l) t w)
  level-found w near = elim (Bool-cases (part (suc l) w == part (suc l) v)) [
    | inl together ↦ along w ((==_iff _ _).0 together)
    | inr differ ↦
        let apart : part (suc l) w ≢ part (suc l) v = λ same. ground (arith, same, differ) in
        let off : index (suc l) w ≢ index (suc l) v =
          λ i. apart (omega (arith, near, i, part-suc (suc l) w, part-suc (suc l) v)) in
        rw (apart_ne l w v done apart) (
          leaf_apart owner entry entry' l t v w tree
            (serves ∙ ap (λ (pre : ℕ). some (suc l, pre)) (sym near)) same
            (here (index (suc l) w) off) apart)
  ]

module _ (owner : Owner) (l t v e : ℕ) (vm : Vmm) (tree : IsTree owner vm.entry)
    (serves : Serves owner (suc l) t v) (done : Bool) (vm' : Vmm) where
  -- The rest of the walk goes through a table that was there.
  old-Written :
      is_present (vm.entry t (index (suc l) v)) ≡ true
      → Written owner l (frame (vm.entry t (index (suc l) v))) v e vm done vm'
      → Written owner (suc l) t v e vm done vm'
  old-Written present w =
      let n = frame (vm.entry t (index (suc l) v)) in
      let here : (i : ℕ) → vm'.entry t i ≡ vm.entry t i =
        λ i. w.same t (suc l) (part (suc (suc l)) v) i serves (inl (omega arith)) in
      record {
        owner' = w.owner';
        kept = w.kept;
        tree = w.tree;
        fresh = w.fresh;
        same = λ x m pre i owned apart.
            w.same x m pre i owned
              (elim apart [ inl low ↦ inl (omega (arith, low)) | inr ne ↦ inr ne ]);
        found =
            level-found owner l t v e n vm.entry vm'.entry tree serves done
              (ap is_present (here _) ∙ present) (ap frame (here _))
              (λ x m pre i owned ne. w.same x m pre i owned (inr ne)) (λ i off. here i)
              (λ u together.
                let i : index (suc l) u ≡ index (suc l) v = ap (λ (q : ℕ). q % 512) together in
                let back : leaf vm.entry (suc l) t u ≡ leaf vm.entry l n u =
                  leaf-present vm.entry l t u
                    (ap (λ (j : ℕ). is_present (vm.entry t j)) i ∙ present)
                  ∙ ap (λ (j : ℕ). leaf vm.entry l (frame (vm.entry t j)) u) i in
                w.found u together ∙ ap (λ (r : ℕ). if done && (u == v) then e else r) (sym back));
      }

  -- It goes through a new table.
  new-Written :
      (p : ℕ) (ps : List ℕ)
      → (absent : is_present (vm.entry t (index (suc l) v)) ≡ false) → (unused : owner p ≡ none)
      → (aligned : p ≡ p / 4096 % 2 ^ 40 * 4096)
      → Written
          (owner1 owner l t v p vm.entry tree serves absent unused aligned)
          l
          p
          v
          e
          (record {
            entry = entry1 owner l t v p vm.entry tree serves absent unused aligned;
            pages = ps;
          })
          done
          vm'
      → Written owner (suc l) t v e vm done vm'
  new-Written p ps absent unused aligned w =
      let o1 : Owner = owner1 owner l t v p vm.entry tree serves absent unused aligned in
      let e1 : ℕ → ℕ → ℕ = entry1 owner l t v p vm.entry tree serves absent unused aligned in
      let keep : (x : ℕ) (r : ℕ × ℕ) → owner x ≡ some r → o1 x ≡ some r =
        owner1-kept owner l t v p vm.entry tree serves absent unused aligned in
      let was : (x i : ℕ) (r : ℕ × ℕ)
          → owner x ≡ some r
          → ((x == t) && (i == index (suc l) v)) ≡ false
          → e1 x i ≡ vm.entry x i =
        entry1-other owner l t v p vm.entry tree serves absent unused aligned in
      let at_t : (i : ℕ) → vm'.entry t i ≡ e1 t i =
        λ i. w.same t (suc l) (part (suc (suc l)) v) i (keep t _ serves) (inl (omega arith)) in
      let led : vm'.entry t (index (suc l) v) ≡ bit_or p 7 =
        at_t _ ∙ entry1-pointer owner l t v p vm.entry tree serves absent unused aligned in
      let same : (x m pre i : ℕ)
          → owner x ≡ some (m, pre)
          → (suc l < m) ⊎ (pre ≢ part (suc m) v)
          → vm'.entry x i ≡ vm.entry x i =
        λ x m pre i owned apart.
          w.same x m pre i (keep x _ owned)
            (elim apart [ inl low ↦ inl (omega (arith, low)) | inr ne ↦ inr ne ])
          ∙ was x i (m, pre) owned
              (let other =
                  other_table owner x t m (suc l) pre (part (suc (suc l)) v) owned serves
                    (elsewhere l m pre v apart) in
                ground (arith, other)) in
      record {
        owner' = w.owner';
        kept = λ x r owned. w.kept x r (keep x r owned);
        tree = w.tree;
        fresh = w.fresh;
        same = same;
        found =
            level-found owner l t v e p vm.entry vm'.entry tree serves done
              (ap is_present led ∙ pointer-is_present p aligned)
              (ap frame led ∙ frame-pointer p aligned)
              (λ x m pre i owned ne. same x m pre i owned (inr ne))
              (λ i off. at_t i ∙ was t i _ serves (ground (arith, off)))
              (λ u together.
                let i : index (suc l) u ≡ index (suc l) v = ap (λ (q : ℕ). q % 512) together in
                let before : leaf vm.entry (suc l) t u ≡ 0 =
                  leaf-absent vm.entry l t u
                    (ap (λ (j : ℕ). is_present (vm.entry t j)) i ∙ absent) in
                let after : leaf e1 l p u ≡ 0 =
                  leaf-empty e1 l p u
                    (entry1-empty owner l t v p vm.entry tree serves absent unused aligned) in
                w.found u together
                ∙ ap (λ (r : ℕ). if done && (u == v) then e else r) (after ∙ sym before));
      }

-- The step through a page of the allocator, where there is no table.
made-Written :
    (owner : Owner) (l t v e : ℕ) (allocate : Bool) (vm : Vmm)
    → IsTree owner vm.entry
    → Serves owner (suc l) t v
    → is_present (vm.entry t (index (suc l) v)) ≡ false
    → Fresh owner vm.pages
    → ((owner1 : Owner) (n : ℕ) (vm1 : Vmm)
        → IsTree owner1 vm1.entry
        → Fresh owner1 vm1.pages
        → Serves owner1 l n v
        → let r = write_at l n v allocate e vm1 in Written owner1 l n v e vm1 r.0 r.1)
    → (pages : List ℕ) → Fresh owner pages
    → let r =
        with_table
          (new_level t (index (suc l) v) pages vm)
          (λ n vm. write_at l n v allocate e vm) in
      Written owner (suc l) t v e vm r.0 r.1
unfolding new_level with_table
made-Written owner l t v e allocate vm tree serves absent kept rest [] fresh =
    unwritten owner (suc l) t v e vm tree kept
made-Written owner l t v e allocate vm tree serves absent kept rest (p ∷ ps)
      ((unused, aligned), (others, fresh)) =
    new-Written owner l t v e vm tree serves _ _ p ps absent unused aligned (
      rest (owner1 owner l t v p vm.entry tree serves absent unused aligned) p _
        (tree1 owner l t v p vm.entry tree serves absent unused aligned)
        (fresh1 owner l t v p vm.entry tree serves absent unused aligned ps others fresh)
        (owner1-new owner l t v p vm.entry tree serves absent unused aligned))

-- The whole write, from the table `t` of level `l` on.
pub write_at-Written :
    (owner : Owner) (l t v e : ℕ) (allocate : Bool) (vm : Vmm)
    → IsTree owner vm.entry
    → Fresh owner vm.pages
    → Serves owner l t v
    → let r = write_at l t v allocate e vm in Written owner l t v e vm r.0 r.1
unfolding write_at get_next_level new_level with_table
write_at-Written owner zero t v e allocate vm tree fresh serves =
    Written-zero owner t v e vm serves tree fresh
write_at-Written owner (suc l) t v e allocate vm tree fresh serves =
    elim (Bool-cases (is_present (vm.entry t (index (suc l) v)))) [
      | inl present ↦
          rw (write_at, get_next_level, present, with_table)
            (old-Written owner l t v e vm tree serves _ _ present (
              write_at-Written owner l (frame (vm.entry t (index (suc l) v))) v e allocate vm tree
                fresh (next-Serves owner vm.entry l t v tree serves present)))
      | inr absent ↦ elim (Bool-cases allocate) [
        | inr barred ↦
            rw (write_at, get_next_level, absent, barred, with_table)
              (unwritten owner (suc l) t v e vm tree fresh)
        | inl allowed ↦
            let through =
              made-Written owner l t v e allocate vm tree serves absent fresh
                (λ owner1 n vm1. write_at-Written owner1 l n v e allocate vm1) vm.pages fresh in
            subst
              (λ (g : Option ℕ × Vmm).
                let r = with_table g (λ n vm. write_at l n v allocate e vm) in
                Written owner (suc l) t v e vm r.0 r.1)
              (sym (rw (absent, allowed) refl)) through
      ]
    ]
