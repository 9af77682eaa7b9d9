-- ===== src/Vmm/NewTable.antt =====
-- The tree with a new, empty table.
use munt3os.Base.{
  ℕ, suc, ◌+◌, ◌*◌, ◌/◌, ◌%◌, ◌^◌, ◌≡◌, sym, ap, ap₂, ◌∙◌, ◌⊎◌, inl, inr, true, false, ◌&&◌, none,
  some, List, arith, ◌==◌, ==_iff, ==_refl, Bool-cases,
}
use Prim.Native.Nat.{bit_or}
use munt3os.Base.{bit_or-add}
use munt3os.Vmm.{frame, is_present, is_huge, put_entry, clear_table}
use munt3os.Vmm.Tree.{
  part, index, Owner, NotIn, Fresh, IsTree, part-suc, Serves, with_owner, with_owner-other,
  with_owner_self, unused-ne, Fresh-with_owner,
}
use munt3os.Vmm.Write.{some_eq, put_entry-table, put_entry_self, put_entry-other}

-- The entry for a page in its place holds its address and the flags.
module _ (p : ℕ) (aligned : p ≡ p / 4096 % 2 ^ 40 * 4096) where
  pointer : bit_or p 7 ≡ p + 7
  pointer =
      ap (λ (x : ℕ). bit_or x 7) aligned
      ∙ (bit_or-add 12 (p / 4096 % 2 ^ 40) 7 (omega arith) ∙ omega (arith, aligned))

  pub frame-pointer : frame (bit_or p 7) ≡ p
  frame-pointer = ap frame pointer ∙ omega (arith, aligned)

  pub pointer-is_present : is_present (bit_or p 7) ≡ true
  pointer-is_present =
      let odd : bit_or p 7 % 2 ≡ 1 = ap (λ (e : ℕ). e % 2) pointer ∙ omega (arith, aligned) in
      ground (arith, odd)

  pub pointer-is_small : is_huge (bit_or p 7) ≡ false
  pointer-is_small =
      let clear : bit_or p 7 / 128 % 2 ≡ 0 =
        ap (λ (e : ℕ). e / 128 % 2) pointer ∙ omega (arith, aligned) in
      ground (arith, clear)

-- The page `p` becomes the table below `t` for the addresses of `v`.
module _ (owner : Owner) (l t v p : ℕ) (entry : ℕ → ℕ → ℕ) (tree : IsTree owner entry)
    (serves : Serves owner (suc l) t v) (absent : is_present (entry t (index (suc l) v)) ≡ false)
    (unused : owner p ≡ none) (aligned : p ≡ p / 4096 % 2 ^ 40 * 4096) where
  abbrev pub owner1 : Owner
  owner1 = with_owner p (l, part (suc l) v) owner

  abbrev pub entry1 : ℕ → ℕ → ℕ
  entry1 = put_entry t (index (suc l) v) (bit_or p 7) (clear_table p entry)

  not_new : (x : ℕ) (r : ℕ × ℕ) → owner x ≡ some r → (x == p) ≡ false
  not_new x r owned = unused-ne owner p x r unused owned

  pub owner1-kept : (x : ℕ) (r : ℕ × ℕ) → owner x ≡ some r → owner1 x ≡ some r
  owner1-kept x r owned = with_owner-other p _ owner x (not_new x r owned) ∙ owned

  pub owner1-new : owner1 p ≡ some (l, part (suc l) v)
  owner1-new = with_owner_self p _ owner

  t_not_new : (p == t) ≡ false
  t_not_new = let other = not_new t (suc l, part (suc (suc l)) v) serves in ground (arith, other)

  pub entry1-empty : (i : ℕ) → entry1 p i ≡ 0
  entry1-empty i =
      put_entry-table t (index (suc l) v) (bit_or p 7) (clear_table p entry) p i t_not_new
      ∙ rw (==_refl p)

  pub entry1-pointer : entry1 t (index (suc l) v) ≡ bit_or p 7
  entry1-pointer = put_entry_self t (index (suc l) v) (bit_or p 7) (clear_table p entry)

  pub entry1-other :
      (x i : ℕ) (r : ℕ × ℕ)
      → owner x ≡ some r
      → ((x == t) && (i == index (suc l) v)) ≡ false
      → entry1 x i ≡ entry x i
  entry1-other x i r owned other =
      put_entry-other t (index (suc l) v) (bit_or p 7) (clear_table p entry) x i other
      ∙ rw (not_new x r owned)

  -- An upper table of the new tree, and an entry of it that is present.
  upper :
      (x m pre i : ℕ)
      → owner1 x ≡ some (suc m, pre)
      → is_present (entry1 x i) ≡ true
      → ((x ≡ t) × (i ≡ index (suc l) v))
        ⊎ ((owner x ≡ some (suc m, pre)) × (entry1 x i ≡ entry x i))
  upper x m pre i owned present = elim (Bool-cases (x == p)) [
    | inl new ↦
        let empty : is_present (entry1 x i) ≡ false =
          ap (λ (q : ℕ). is_present (entry1 q i)) ((==_iff x p).0 new)
          ∙ ap is_present (entry1-empty i) in
        cc
    | inr old ↦
        let was : owner x ≡ some (suc m, pre) = sym (rw old) ∙ owned in
        elim (Bool-cases ((x == t) && (i == index (suc l) v))) [
          | inl here ↦ inl (ground (arith, here), ground (arith, here))
          | inr other ↦ inr (was, entry1-other x i (suc m, pre) was other)
        ]
  ]

  new-next :
      (x m pre i : ℕ)
      → owner1 x ≡ some (suc m, pre)
      → x ≡ t
      → i ≡ index (suc l) v
      → owner1 (frame (entry1 x i)) ≡ some (m, pre * 512 + i)
  new-next x m pre i owned at_t at_i =
      let place =
        some_eq (suc m) (suc l) pre (part (suc (suc l)) v) (owner1 x) owned
          (ap owner1 at_t ∙ owner1-kept t _ serves) in
      let level : l ≡ m = omega (arith, place.0) in
      let prefix : part (suc l) v ≡ pre * 512 + i =
        part-suc (suc l) v ∙ omega (arith, place.1, at_i) in
      ap₂ (λ (y j : ℕ). owner1 (frame (entry1 y j))) at_t at_i
      ∙ (ap (λ (e : ℕ). owner1 (frame e)) entry1-pointer
          ∙ (ap owner1 (frame-pointer p aligned)
              ∙ (owner1-new ∙ ap₂ (λ (a b : ℕ). some (a, b)) level prefix)))

  pub tree1 : IsTree owner1 entry1
  tree1 = record {
    next = λ x m pre i owned low present. elim (upper x m pre i owned present) [
      | inl (at_t, at_i) ↦ new-next x m pre i owned at_t at_i
      | inr (was, e) ↦
          ap (λ (k : ℕ). owner1 (frame k)) e
          ∙ owner1-kept (frame (entry x i)) _
              (tree.next x m pre i was low (sym (ap is_present e) ∙ present))
    ];
    small = λ x m pre i owned low present. elim (upper x m pre i owned present) [
      | inl (at_t, at_i) ↦
          ap₂ (λ (y j : ℕ). is_huge (entry1 y j)) at_t at_i
          ∙ (ap is_huge entry1-pointer ∙ pointer-is_small p aligned)
      | inr (was, e) ↦ ap is_huge e ∙ tree.small x m pre i was low (sym (ap is_present e) ∙ present)
    ];
  }

  pub fresh1 : (ps : List ℕ) → NotIn p ps → Fresh owner ps → Fresh owner1 ps
  fresh1 ps others fresh = Fresh-with_owner owner p (l, part (suc l) v) ps others fresh
