-- ===== src/Vmm/Tree.antt =====
-- The page tables as a tree: which table serves which addresses, and what a walk finds.
use munt3os.Base.{
  ℕ, zero, suc, ◌+◌, ◌*◌, ◌/◌, ◌%◌, ◌^◌, ◌<◌, ◌≡◌, sym, ap, ◌∙◌, ◌≢◌, inl, inr, true, false, Option,
  none, some, List, [], ◌∷◌, arith, ◌==◌, if◌then◌else◌, ==_iff, ==_refl, Bool-cases,
}
use mathlib.Core.Option.{none-ne-some}
use munt3os.Vmm.{frame, is_present, is_huge}

-- The page number without its lowest `l` indices, and the index at a level, counted from the page tables.
abbrev pub part : ℕ → ℕ → ℕ
part zero v = v
part (suc l) v = part l v / 512

abbrev pub index : ℕ → ℕ → ℕ
index l v = part l v % 512

-- The entry that a walk from the table `t` of level `l` ends at, 0 where a table is missing.
unfoldable pub leaf : (ℕ → ℕ → ℕ) → ℕ → ℕ → ℕ → ℕ
leaf entry zero t v = entry t (index zero v)
leaf entry (suc l) t v =
    let e = entry t (index (suc l) v) in
    let rest = leaf entry l (frame e) v in if is_present e then rest else 0

-- The level of a table and the part that its addresses share.
abbrev pub Owner : Type 0
Owner = ℕ → Option (ℕ × ℕ)

abbrev pub NotIn : ℕ → List ℕ → Type 0
NotIn p [] = Unit {0}
NotIn p (q ∷ qs) = (p ≢ q) × NotIn p qs

-- Pages that are no tables: they lie in the frames that an entry can name, and differ.
abbrev pub Fresh : Owner → List ℕ → Type 0
Fresh owner [] = Unit {0}
Fresh owner (p ∷ ps) =
    ((owner p ≡ none) × (p ≡ p / 4096 % 2 ^ 40 * 4096)) × (NotIn p ps × Fresh owner ps)

-- Below the last level, a present entry leads to the one table for its addresses, and is no large page.
pub record IsTree (owner : Owner) (entry : ℕ → ℕ → ℕ) : Type 0 where
  pub next :
      (t l pre i : ℕ)
      → owner t ≡ some (suc l, pre)
      → i < 512
      → is_present (entry t i) ≡ true
      → owner (frame (entry t i)) ≡ some (l, pre * 512 + i)
  pub small :
      (t l pre i : ℕ)
      → owner t ≡ some (suc l, pre)
      → i < 512
      → is_present (entry t i) ≡ true
      → is_huge (entry t i) ≡ false

pub part-suc : (l v : ℕ) → part l v ≡ part (suc l) v * 512 + index l v
part-suc l v = omega arith

-- The table that serves `v` at its level.
abbrev pub Serves : Owner → ℕ → ℕ → ℕ → Type 0
Serves owner l t v = owner t ≡ some (l, part (suc l) v)

pub next-Serves :
    (owner : Owner) (entry : ℕ → ℕ → ℕ) (l t v : ℕ)
    → IsTree owner entry
    → Serves owner (suc l) t v
    → is_present (entry t (index (suc l) v)) ≡ true
    → Serves owner l (frame (entry t (index (suc l) v))) v
next-Serves owner entry l t v tree serves present =
    tree.next t l (part (suc (suc l)) v) (index (suc l) v) serves (omega arith) present
    ∙ ap (λ (pre : ℕ). some (l, pre)) (sym (part-suc (suc l) v))

pub leaf-present :
    (entry : ℕ → ℕ → ℕ) (l t v : ℕ)
    → is_present (entry t (index (suc l) v)) ≡ true
    → leaf entry (suc l) t v ≡ leaf entry l (frame (entry t (index (suc l) v))) v
unfolding leaf
leaf-present entry l t v present = rw (leaf, present)

pub leaf-absent :
    (entry : ℕ → ℕ → ℕ) (l t v : ℕ)
    → is_present (entry t (index (suc l) v)) ≡ false
    → leaf entry (suc l) t v ≡ 0
unfolding leaf
leaf-absent entry l t v absent = rw (leaf, absent)

-- A walk through tables that are as they were finds what it found: those that do not serve `v`.
pub leaf-frame :
    (owner : Owner) (entry entry' : ℕ → ℕ → ℕ) (v : ℕ)
    → IsTree owner entry
    → ((t l pre i : ℕ) → owner t ≡ some (l, pre) → pre ≢ part (suc l) v → entry' t i ≡ entry t i)
    → (l t w : ℕ) → Serves owner l t w
    → part (suc l) w ≢ part (suc l) v
    → leaf entry' l t w ≡ leaf entry l t w
unfolding leaf
leaf-frame owner entry entry' v tree same zero t w serves other =
    same t zero (part 1 w) (index zero w) serves other
leaf-frame owner entry entry' v tree same (suc l) t w serves other =
    let i = index (suc l) w in
    let kept = same t (suc l) (part (suc (suc l)) w) i serves other in
    elim (Bool-cases (is_present (entry t i))) [
      | inr absent ↦
          leaf-absent entry' l t w (ap is_present kept ∙ absent)
          ∙ sym (leaf-absent entry l t w absent)
      | inl present ↦
          leaf-present entry' l t w (ap is_present kept ∙ present)
          ∙ (ap (λ (e : ℕ). leaf entry' l (frame e) w) kept
              ∙ (leaf-frame owner entry entry' v tree same l (frame (entry t i)) w
                    (next-Serves owner entry l t w tree serves present)
                    (λ e. other (ap (λ (q : ℕ). q / 512) e))
                  ∙ sym (leaf-present entry l t w present)))
    ]

-- An empty table.
pub leaf-empty : (entry : ℕ → ℕ → ℕ) (l t v : ℕ) → ((i : ℕ) → entry t i ≡ 0) → leaf entry l t v ≡ 0
unfolding leaf
leaf-empty entry zero t v empty = empty (index zero v)
leaf-empty entry (suc l) t v empty =
    leaf-absent entry l t v (ap is_present (empty (index (suc l) v)))

-- A walk through tables that are all as they were.
pub leaf-same :
    (owner : Owner) (entry entry' : ℕ → ℕ → ℕ)
    → IsTree owner entry
    → ((t i : ℕ) (r : ℕ × ℕ) → owner t ≡ some r → entry' t i ≡ entry t i)
    → (l t w : ℕ) → Serves owner l t w
    → leaf entry' l t w ≡ leaf entry l t w
unfolding leaf
leaf-same owner entry entry' tree same zero t w serves = same t (index zero w) _ serves
leaf-same owner entry entry' tree same (suc l) t w serves =
    let i = index (suc l) w in
    let kept = same t i _ serves in
    elim (Bool-cases (is_present (entry t i))) [
      | inr absent ↦
          leaf-absent entry' l t w (ap is_present kept ∙ absent)
          ∙ sym (leaf-absent entry l t w absent)
      | inl present ↦
          leaf-present entry' l t w (ap is_present kept ∙ present)
          ∙ (ap (λ (e : ℕ). leaf entry' l (frame e) w) kept
              ∙ (leaf-same owner entry entry' tree same l (frame (entry t i)) w
                    (next-Serves owner entry l t w tree serves present)
                  ∙ sym (leaf-present entry l t w present)))
    ]

-- The table `p` is added.
abbrev pub with_owner : ℕ → ℕ × ℕ → Owner → Owner
with_owner p r owner x = if x == p then some r else owner x

pub with_owner-other :
    (p : ℕ) (r : ℕ × ℕ) (owner : Owner) (x : ℕ)
    → (x == p) ≡ false
    → with_owner p r owner x ≡ owner x
with_owner-other p r owner x other = rw other

pub with_owner_self : (p : ℕ) (r : ℕ × ℕ) (owner : Owner) → with_owner p r owner p ≡ some r
with_owner_self p r owner = rw (==_refl p)

pub unused-ne :
    (owner : Owner) (p x : ℕ) (r : ℕ × ℕ) → owner p ≡ none → owner x ≡ some r → (x == p) ≡ false
unused-ne owner p x r unused owned = elim (Bool-cases (x == p)) [
  | inr other ↦ other
  | inl here ↦ absurd (none-ne-some r (sym unused ∙ (sym (ap owner ((==_iff x p).0 here)) ∙ owned)))
]

pub Fresh-with_owner :
    (owner : Owner) (p : ℕ) (r : ℕ × ℕ) (ps : List ℕ)
    → NotIn p ps
    → Fresh owner ps
    → Fresh (with_owner p r owner) ps
Fresh-with_owner owner p r [] others fresh = tt
Fresh-with_owner owner p r (q ∷ ps) others fresh =
    let other : (q == p) ≡ false = ground (arith, others.0) in
    (
      (with_owner-other p r owner q other ∙ fresh.0.0, fresh.0.1),
      (fresh.1.0, Fresh-with_owner owner p r ps others.1 fresh.1.1),
    )
