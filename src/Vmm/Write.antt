-- ===== src/Vmm/Write.antt =====
-- What a write of a last entry does to the tree: the page of the address gets the entry, the tables that are
-- made belong to the tree, and all other pages keep theirs.
use munt3os.Base.{
  ℕ, zero, suc, ◌<◌, ◌≡◌, refl, sym, ap, ◌∙◌, ◌≢◌, ◌⊎◌, inl, inr, Bool, true, false, ◌&&◌, Option,
  some, arith, ◌==◌, if◌then◌else◌, ==_iff, ==_refl, Bool-cases,
}
use mathlib.Core.Option.{some-injective}
use munt3os.Vmm.{Vmm, frame, is_present, is_huge, put_entry, get_next_level, with_table}
use munt3os.Vmm.Tree.{part, index, leaf, Owner, Fresh, IsTree, Serves}

-- `write_entry` by recursion on the level.
unfoldable pub write_at : ℕ → ℕ → ℕ → Bool → ℕ → Vmm → Bool × Vmm
unfolding get_next_level with_table
write_at zero t v allocate e vm =
    (true, record vm { entry = put_entry t (index zero v) e vm.entry })
write_at (suc l) t v allocate e vm =
    with_table (get_next_level t (index (suc l) v) allocate vm)
      (λ n vm. write_at l n v allocate e vm)

-- The tables from `t`, of level `l`, on, after a write of `e` for the page `v`, if it was done.
pub record Written (owner : Owner) (l t v e : ℕ) (vm : Vmm) (done : Bool) (vm' : Vmm) : Type 0 where
  pub owner' : Owner
  pub kept : (x : ℕ) (r : ℕ × ℕ) → owner x ≡ some r → owner' x ≡ some r
  pub tree : IsTree owner' vm'.entry
  pub fresh : Fresh owner' vm'.pages
  pub same :
      (x m pre i : ℕ)
      → owner x ≡ some (m, pre)
      → (l < m) ⊎ (pre ≢ part (suc m) v)
      → vm'.entry x i ≡ vm.entry x i
  pub found :
      (w : ℕ)
      → part (suc l) w ≡ part (suc l) v
      → leaf vm'.entry l t w ≡ (if done && (w == v) then e else leaf vm.entry l t w)

pub unwritten :
    (owner : Owner) (l t v e : ℕ) (vm : Vmm)
    → IsTree owner vm.entry
    → Fresh owner vm.pages
    → Written owner l t v e vm false vm
unwritten owner l t v e vm tree fresh = record {
  owner' = owner;
  kept = λ x r h. h;
  tree = tree;
  fresh = fresh;
  same = λ x m pre i h k. refl;
  found = λ w h. refl;
}

pub some_eq :
    (m l pre q : ℕ) (o : Option (ℕ × ℕ)) → o ≡ some (m, pre) → o ≡ some (l, q) → (m ≡ l) × (pre ≡ q)
some_eq m l pre q o h k =
    let same : Path (ℕ × ℕ) (m, pre) (l, q) = some-injective _ _ (sym h ∙ k) in
    (ap (λ (r : ℕ × ℕ). r.0) same, ap (λ (r : ℕ × ℕ). r.1) same)

pub put_entry-other :
    (t i e : ℕ) (entry : ℕ → ℕ → ℕ) (x j : ℕ)
    → ((x == t) && (j == i)) ≡ false
    → put_entry t i e entry x j ≡ entry x j
put_entry-other t i e entry x j other = rw other

pub put_entry_self : (t i e : ℕ) (entry : ℕ → ℕ → ℕ) → put_entry t i e entry t i ≡ e
put_entry_self t i e entry = rw (==_refl t, ==_refl i)

pub other_table :
    (owner : Owner) (x t m l pre q : ℕ)
    → owner x ≡ some (m, pre)
    → owner t ≡ some (l, q)
    → (m ≢ l) ⊎ (pre ≢ q)
    → (x == t) ≡ false
other_table owner x t m l pre q h k differ = elim (Bool-cases (x == t)) [
  | inr other ↦ other
  | inl here ↦
      let same = some_eq m l pre q (owner x) h (ap owner ((==_iff x t).0 here) ∙ k) in
      elim differ [ inl ne ↦ absurd (ne same.0) | inr ne ↦ absurd (ne same.1) ]
]

pub put_entry-table :
    (t i e : ℕ) (entry : ℕ → ℕ → ℕ) (x j : ℕ)
    → (x == t) ≡ false
    → put_entry t i e entry x j ≡ entry x j
put_entry-table t i e entry x j other = rw other

-- The tree does not depend on the entries of the last level.
IsTree-same :
    (owner : Owner) (entry entry' : ℕ → ℕ → ℕ)
    → IsTree owner entry
    → ((x m pre i : ℕ) → owner x ≡ some (suc m, pre) → entry' x i ≡ entry x i)
    → IsTree owner entry'
IsTree-same owner entry entry' tree same = record {
  next = λ x m pre i h low present.
      let e = same x m pre i h in
      ap (λ (k : ℕ). owner (frame k)) e
      ∙ tree.next x m pre i h low (sym (ap is_present e) ∙ present);
  small = λ x m pre i h low present.
      let e = same x m pre i h in
      ap is_huge e ∙ tree.small x m pre i h low (sym (ap is_present e) ∙ present);
}

-- The last level.
pub Written-zero :
    (owner : Owner) (t v e : ℕ) (vm : Vmm)
    → Serves owner zero t v
    → IsTree owner vm.entry
    → Fresh owner vm.pages
    → Written owner zero t v e vm true (record vm { entry = put_entry t (index zero v) e vm.entry })
unfolding leaf
Written-zero owner t v e vm serves tree fresh =
    let i = index zero v in
    let other : (x m pre j : ℕ)
        → owner x ≡ some (m, pre)
        → (0 < m) ⊎ (pre ≢ part (suc m) v)
        → put_entry t i e vm.entry x j ≡ vm.entry x j =
      λ x m pre j h differ.
        put_entry-table t i e vm.entry x j
          (other_table owner x t m 0 pre (part 1 v) h serves (elsewhere m pre differ)) in
    record {
      owner' = owner;
      kept = λ x r h. h;
      tree =
          IsTree-same owner vm.entry _ tree
            (λ x m pre j h. other x (suc m) pre j h (inl (omega arith)));
      fresh = fresh;
      same = other;
      found = λ w near. elim (Bool-cases (w == v)) [
        | inl here ↦ rw here (
            ap (λ (u : ℕ). put_entry t i e vm.entry t (index zero u)) ((==_iff w v).0 here)
            ∙ put_entry_self t i e vm.entry)
        | inr there ↦
            rw there (put_entry-other t i e vm.entry t (index zero w) (ground (arith, near, there)))
      ];
    }
  where
    elsewhere : (m pre : ℕ) → (0 < m) ⊎ (pre ≢ part (suc m) v) → (m ≢ 0) ⊎ (pre ≢ part 1 v)
    elsewhere zero pre (inl h) = absurd (omega (arith, h))
    elsewhere zero pre (inr ne) = inr ne
    elsewhere (suc m) pre d = inl (omega arith)
