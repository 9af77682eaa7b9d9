-- ===== src/Sched/Rotation.antt =====
-- The ring as it is seen from one thread and from another.
use munt3os.Base.{
  ℕ, ◌≡◌, refl, sym, ap, ◌∙◌, inl, inr, true, List, [], ◌∷◌, ◌++◌, append-nil, append_assoc,
  append-split,
}
use munt3os.Sched.{Thread, is_running}

abbrev pub saved : ℕ → Thread → Thread
saved rsp t = record t { rsp = rsp }

-- The same thread, but for its stack pointer.
pub record Same (t t' : Thread) : Type 0 where
  pub address : t'.address ≡ t.address
  pub running : is_running t'.state ≡ true

-- The stack pointer of the last thread of the ring is saved.
pub saved_last :
    (rsp : ℕ) (zs xs ys : List Thread) (c t : Thread)
    → is_running t.state ≡ true
    → zs ++ (c ∷ []) ≡ xs ++ (t ∷ ys)
    → (t' : Thread) × (ys' : List Thread) × (zs ++ (saved rsp c ∷ []) ≡ xs ++ (t' ∷ ys'))
      × Same t t'
saved_last rsp zs xs ys c t runs e = elim (append-split zs xs (c ∷ []) ys t e) [
  | inl (r, p, q) ↦ (
    t,
    r ++ (saved rsp c ∷ []),
    ap (λ (l : List Thread). l ++ (saved rsp c ∷ [])) p
        ∙ append_assoc xs (t ∷ r) (saved rsp c ∷ []),
    record { address = refl; running = runs },
  )
  | inr (r, p, q) ↦ last r p q
]
  where
    last :
        (r : List Thread)
        → xs ≡ zs ++ r
        → c ∷ [] ≡ r ++ (t ∷ ys)
        → (t' : Thread) × (ys' : List Thread) × (zs ++ (saved rsp c ∷ []) ≡ xs ++ (t' ∷ ys'))
          × Same t t'
    last [] p q =
        let same : c ≡ t = cc in
        (
          saved rsp c,
          [],
          ap (λ (l : List Thread). l ++ (saved rsp c ∷ [])) (sym (p ∙ append-nil zs)),
          record {
            address = ap (λ (u : Thread). u.address) same;
            running = ap (λ (u : Thread). is_running u.state) same ∙ runs;
          },
        )
    last (x ∷ []) p q = cc
    last (x ∷ y ∷ r) p q = cc

-- The ring as seen from behind `next`, where it was seen from behind `c`.
pub rotated :
    (before after skipped rest : List Thread) (c next : Thread)
    → after ++ (before ++ (c ∷ [])) ≡ skipped ++ (next ∷ rest)
    → (b a : List Thread) × (before ++ (c ∷ after) ≡ b ++ (next ∷ a))
      × (a ++ (b ++ (next ∷ [])) ≡ rest ++ (skipped ++ (next ∷ [])))
rotated before after skipped rest c next e = elim (append-split after skipped _ rest next e) [
  | inl (r, p, q) ↦ (
    before ++ (c ∷ skipped),
    r,
    ap (λ (l : List Thread). before ++ (c ∷ l)) p
        ∙ sym (append_assoc before (c ∷ skipped) (next ∷ r)),
    ap (λ (l : List Thread). r ++ l) (append_assoc before (c ∷ skipped) (next ∷ []))
        ∙ (sym (append_assoc r before (c ∷ (skipped ++ (next ∷ []))))
            ∙ (sym (append_assoc (r ++ before) (c ∷ []) (skipped ++ (next ∷ [])))
                ∙ ap (λ (l : List Thread). l ++ (skipped ++ (next ∷ [])))
                    (append_assoc r before (c ∷ []) ∙ sym q))),
  )
  | inr (r, p, q) ↦ (
    r,
    rest ++ after,
    sym (append_assoc before (c ∷ []) after)
        ∙ (ap (λ (l : List Thread). l ++ after) q ∙ append_assoc r (next ∷ rest) after),
    append_assoc rest after (r ++ (next ∷ []))
        ∙ ap (λ (l : List Thread). rest ++ l)
            (sym (append_assoc after r (next ∷ []))
              ∙ ap (λ (l : List Thread). l ++ (next ∷ [])) (sym p)),
  )
]

-- A thread of the queue is in the ring as it is seen from the current thread.
pub in_view :
    (before after xs ys : List Thread) (c t : Thread)
    → before ++ (c ∷ after) ≡ xs ++ (t ∷ ys)
    → (skipped rest : List Thread) × (after ++ (before ++ (c ∷ [])) ≡ skipped ++ (t ∷ rest))
in_view before after xs ys c t e = elim (append-split before xs (c ∷ after) ys t e) [
  | inl (r, p, q) ↦ (
    after ++ xs,
    r ++ (c ∷ []),
    ap (λ (l : List Thread). after ++ (l ++ (c ∷ []))) p
        ∙ (ap (λ (l : List Thread). after ++ l) (append_assoc xs (t ∷ r) (c ∷ []))
            ∙ sym (append_assoc after xs (t ∷ (r ++ (c ∷ []))))),
  )
  | inr (r, p, q) ↦ behind r q
]
  where
    behind :
        (r : List Thread)
        → c ∷ after ≡ r ++ (t ∷ ys)
        → (skipped rest : List Thread) × (after ++ (before ++ (c ∷ [])) ≡ skipped ++ (t ∷ rest))
    behind [] q =
        let same : c ≡ t = cc in
        (
          after ++ before,
          [],
          ap (λ (u : Thread). after ++ (before ++ (u ∷ []))) same
              ∙ sym (append_assoc after before (t ∷ [])),
        )
    behind (x ∷ r) q =
        let rest : after ≡ r ++ (t ∷ ys) = cc in
        (
          r,
          ys ++ (before ++ (c ∷ [])),
          ap (λ (l : List Thread). l ++ (before ++ (c ∷ []))) rest
              ∙ append_assoc r (t ∷ ys) (before ++ (c ∷ [])),
        )
