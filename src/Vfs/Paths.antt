-- ===== src/Vfs/Paths.antt =====
-- The components of a resolved path are names.
use munt3os.Base.{
  ℕ, zero, suc, ◌+◌, ◌-◌, ◌≤◌, ◌<◌, ◌≡◌, sym, ◌∙◌, ◌≢◌, inl, inr, true, false, Option, List, [],
  ◌∷◌, ◌++◌, append-nil, append_assoc, arith, ltb, ◌==◌, ltb→lt, lt→ltb, Bool-cases, length, take,
  replicate, length-append, length-take,
}
use munt3os.Strings.{strncpy}
use munt3os.Vfs.{
  path_size, from_root, slash, str_eq, emit, tokens, dot, dot_dot, push_token, push_all, components,
}

-- A name: not empty, without a slash or a terminator.
abbrev pub Plain : List ℕ → Type 0
Plain [] = Unit {0}
Plain (x ∷ xs) = (x ≢ 0) × (x ≢ slash) × Plain xs

pub record Name (w : List ℕ) : Type 0 where
  pub plain : Plain w
  pub some_byte : 0 < length w

abbrev pub All : (List ℕ → Type 0) → List (List ℕ) → Type 0
All P [] = Unit {0}
All P (w ∷ ws) = P w × All P ws

Plain-append : (xs : List ℕ) (y : ℕ) → Plain xs → y ≢ 0 → y ≢ slash → Plain (xs ++ (y ∷ []))
Plain-append [] y p ne ns = (ne, ns, tt)
Plain-append (x ∷ xs) y p ne ns = (p.0, p.1, Plain-append xs y p.2 ne ns)

emit-All : (w : List ℕ) → Plain w → All Name (emit w)
emit-All [] p = tt
emit-All (x ∷ xs) p = (record { plain = p; some_byte = omega arith }, tt)

All-append : (P : List ℕ → Type 0) (xs ys : List (List ℕ)) → All P xs → All P ys → All P (xs ++ ys)
All-append P [] ys a b = b
All-append P (x ∷ xs) ys a b = (a.0, All-append P xs ys a.1 b)

All-take : (P : List ℕ → Type 0) (n : ℕ) (xs : List (List ℕ)) → All P xs → All P (take n xs)
All-take P zero xs a = tt
All-take P (suc n) [] a = tt
All-take P (suc n) (x ∷ xs) a = (a.0, All-take P n xs a.1)

tokens-All : (xs w : List ℕ) → Plain w → All Name (tokens w xs)
unfolding tokens
tokens-All [] w p = emit-All w p
tokens-All (x ∷ xs) w p = elim (Bool-cases (x == 0)) [
  | inl end ↦ rw (tokens, end) (emit-All w p)
  | inr more ↦ elim (Bool-cases (x == slash)) [
    | inl at_slash ↦
        rw (tokens, more, at_slash)
          (All-append Name (emit w) _ (emit-All w p) (tokens-All xs [] tt))
    | inr byte ↦
        rw (tokens, more, byte)
          (tokens-All xs (w ++ (x ∷ [])) (Plain-append w x p (ground arith) (ground arith)))
  ]
]

-- A component: a name that is neither "." nor "..".
pub record Component (w : List ℕ) : Type 0 where
  pub name : Name w
  pub not_dot : str_eq w dot ≡ false
  pub not_dot_dot : str_eq w dot_dot ≡ false

-- At most 128 components.
pub record Normal (stack : List (List ℕ)) : Type 0 where
  pub all : All Component stack
  pub few : length stack ≤ 128

push_token-Normal :
    (stack : List (List ℕ)) (w : List ℕ) → Normal stack → Name w → Normal (push_token stack w)
unfolding push_token
push_token-Normal stack w n name = elim (Bool-cases (str_eq w dot)) [
  | inl same ↦ rw (push_token, same) n
  | inr not_dot ↦ elim (Bool-cases (str_eq w dot_dot)) [
    | inl up ↦
        rw (push_token, not_dot, up)
          (record {
            all = All-take Component (length stack - 1) stack n.all;
            few = omega (arith, n.few, length-take (length stack - 1) stack);
          })
    | inr not_up ↦ elim (Bool-cases (ltb (length stack) 128)) [
      | inr full ↦ rw (push_token, not_dot, not_up, full) n
      | inl room ↦
          rw (push_token, not_dot, not_up, room)
            (record {
              all =
                  All-append Component stack (w ∷ []) n.all
                    (record { name = name; not_dot = not_dot; not_dot_dot = not_up }, tt);
              few = omega (arith, length-append stack (w ∷ []), ltb→lt (length stack) 128 room);
            })
    ]
  ]
]

push_all-Normal :
    (ts stack : List (List ℕ)) → Normal stack → All Name ts → Normal (push_all stack ts)
unfolding push_all
push_all-Normal [] stack n names = n
push_all-Normal (t ∷ ts) stack n names =
    push_all-Normal ts (push_token stack t) (push_token-Normal stack t n names.0) names.1

-- Whatever the working directory and the path, the components that `vfs_resolve_path` joins are at most
-- 128, and each is a name without a slash that is not empty, not "." and not "..".
pub components-Normal : (pwd : Option (List ℕ)) (path : List ℕ) → Normal (components pwd path)
unfolding components
components-Normal pwd path =
    let temp = strncpy (replicate path_size 0) (from_root pwd path) 1023 in
    push_all-Normal (tokens [] temp) [] (record { all = tt; few = omega arith })
      (tokens-All temp [] tt)

-- A component behind others is pushed, as long as there is room.
push_token-Component :
    (stack : List (List ℕ)) (w : List ℕ)
    → Component w
    → length stack < 128
    → push_token stack w ≡ stack ++ (w ∷ [])
unfolding push_token
push_token-Component stack w c room =
    let fits : ltb (length stack) 128 ≡ true = lt→ltb (length stack) 128 room in
    rw (push_token, c.not_dot, c.not_dot_dot, fits)

push_all-Component :
    (rest stack : List (List ℕ))
    → All Component rest
    → length stack + length rest ≤ 128
    → push_all stack rest ≡ stack ++ rest
unfolding push_all
push_all-Component [] stack all few = sym (append-nil stack)
push_all-Component (t ∷ ts) stack all few = rw (push_token-Component stack t all.0 (omega arith)) (
    push_all-Component ts (stack ++ (t ∷ [])) all.1 (omega (arith, length-append stack (t ∷ [])))
    ∙ append_assoc stack (t ∷ []) ts)

-- A path in normal form keeps all its components when it is resolved again.
pub push_all-Normal_id : (ws : List (List ℕ)) → Normal ws → push_all [] ws ≡ ws
push_all-Normal_id ws n = push_all-Component ws [] n.all (omega (arith, n.few))
