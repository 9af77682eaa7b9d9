-- ===== src/Vfs/Render.antt =====
-- The string that `vfs_resolve_path` returns.
use munt3os.Base.{
  ℕ, zero, suc, ◌+◌, ◌≤◌, ◌≡◌, refl, sym, ap, ◌∙◌, inl, inr, true, false, Option, some, List, [],
  ◌∷◌, ◌++◌, append-nil, append_assoc, arith, ◌==◌, Bool-cases, length, set, take, replicate,
  length-append, length-set, length-replicate, take_all, sub_u64,
}
use munt3os.Strings.{strlen, c_str, strcpy, strncat, strncat_from}
use munt3os.Strings.Compare.{length-c_str}
use munt3os.Strings.Append.{c_str-strncat, strcpy_lem, c_str-terminated}
use munt3os.Vfs.{path_size, slash, append_bounded, join_tokens, components, vfs_resolve_path}
use munt3os.Vfs.Paths.{Plain, All, Component, Normal, components-Normal}

-- The components with a slash between any two.
abbrev pub render : List (List ℕ) → List ℕ
render [] = []
render (t ∷ []) = t
render (t ∷ (u ∷ us)) = t ++ (slash ∷ render (u ∷ us))

length-strncat_from :
    (n : ℕ) (dest src : List ℕ) (i : ℕ) → length (strncat_from dest src i n) ≡ length dest
unfolding strncat_from
length-strncat_from zero dest src i = length-set dest i 0
length-strncat_from (suc n) dest [] i = length-set dest i 0
length-strncat_from (suc n) dest (x ∷ xs) i = elim (Bool-cases (x == 0)) [
  | inl end ↦ rw (strncat_from, end) (length-set dest i 0)
  | inr more ↦
      rw (strncat_from, more)
        (length-strncat_from n (set dest i x) xs (i + 1) ∙ length-set dest i x)
]

c_str-Plain : (w : List ℕ) → Plain w → c_str w ≡ w
unfolding c_str
c_str-Plain [] p = refl
c_str-Plain (x ∷ xs) p =
    let byte : (x == 0) ≡ false = ground (arith, p.0) in
    rw byte (ap (λ (t : List ℕ). x ∷ t) (c_str-Plain xs p.2))

-- One bounded append, where the text fits.
module _ (a t : List ℕ) (byte : c_str t ≡ t) (wide : length a ≡ 1024)
    (fits : strlen a + length t ≤ 1023) where
  room : strlen t ≡ length t
  room = sym (length-c_str t) ∙ ap length byte

  c_str-append_bounded : c_str (append_bounded a t) ≡ c_str a ++ t
  unfolding append_bounded
  c_str-append_bounded =
      let n = sub_u64 1023 (strlen a) in
      c_str-strncat a t n (omega (arith, room, wide, fits))
      ∙ ap (λ (w : List ℕ). c_str a ++ w) (ap (take n) byte ∙ take_all n t (omega (arith, fits)))

  length-append_bounded : length (append_bounded a t) ≡ 1024
  unfolding append_bounded strncat
  length-append_bounded = length-strncat_from (sub_u64 1023 (strlen a)) a t (strlen a) ∙ wide

  strlen-append_bounded : strlen (append_bounded a t) ≡ strlen a + length t
  strlen-append_bounded =
      let b = append_bounded a t in
      let bytes : length (c_str b) ≡ length (c_str a ++ t) = ap length c_str-append_bounded in
      omega (arith, length-c_str b, length-c_str a, bytes, length-append (c_str a) t)

slash_byte : c_str (slash ∷ []) ≡ slash ∷ []
unfolding c_str
slash_byte = refl

c_str-join_tokens :
    (ts : List (List ℕ)) (a : List ℕ)
    → All Component ts
    → length a ≡ 1024
    → strlen a + length (render ts) ≤ 1023
    → (c_str (join_tokens a ts) ≡ c_str a ++ render ts)
unfolding join_tokens
c_str-join_tokens [] a all wide fits = sym (append-nil (c_str a))
c_str-join_tokens (t ∷ []) a all wide fits =
    c_str-append_bounded a t (c_str-Plain t all.0.name.plain) wide fits
c_str-join_tokens (t ∷ (u ∷ us)) a all wide fits =
    let byte = c_str-Plain t all.0.name.plain in
    let sum = length-append t (slash ∷ render (u ∷ us)) in
    let fits1 : strlen a + length t ≤ 1023 = omega (arith, fits, sum) in
    let b = append_bounded a t in
    let long = strlen-append_bounded a t byte wide fits1 in
    let wide1 = length-append_bounded a t byte wide fits1 in
    let fits2 : strlen b + length (slash ∷ []) ≤ 1023 = omega (arith, fits, sum, long) in
    let c = append_bounded b (slash ∷ []) in
    let long2 = strlen-append_bounded b (slash ∷ []) slash_byte wide1 fits2 in
    let wide2 = length-append_bounded b (slash ∷ []) slash_byte wide1 fits2 in
    let rest = c_str-join_tokens (u ∷ us) c all.1 wide2 (omega (arith, fits, sum, long, long2)) in
    rest
    ∙ (ap (λ (w : List ℕ). w ++ render (u ∷ us))
          (c_str-append_bounded b (slash ∷ []) slash_byte wide1 fits2)
        ∙ (append_assoc (c_str b) (slash ∷ []) (render (u ∷ us))
            ∙ (ap (λ (w : List ℕ). w ++ (slash ∷ render (u ∷ us)))
                  (c_str-append_bounded a t byte wide fits1)
                ∙ append_assoc (c_str a) t (slash ∷ render (u ∷ us)))))

-- The last copy keeps the string.
c_str-copied : (s : List ℕ) → c_str (strcpy (replicate (strlen s + 1) 0) s).1 ≡ c_str s
c_str-copied s =
    let wide : length (replicate {A = ℕ} (strlen s + 1) 0) ≡ strlen s + 1 =
      length-replicate (strlen s + 1) 0 in
    let e = strcpy_lem (replicate (strlen s + 1) 0) s (omega (arith, wide)) in
    ap (λ (r : ℕ × List ℕ). c_str r.1) e ∙ c_str-terminated s _

-- Where its allocations succeed, `vfs_resolve_path` returns the string of a slash and the components with
-- a slash between any two, if those take at most 1022 bytes. There are at most 128 components, and each
-- is a name without a slash that is not empty, not "." and not "..".
pub vfs_resolve_path_lem :
    (pwd : Option (List ℕ)) (path : List ℕ)
    → length (render (components pwd path)) ≤ 1022
    → Normal (components pwd path)
      × ((resolved : List ℕ) × (vfs_resolve_path true true pwd (some path) ≡ some resolved)
          × (c_str resolved ≡ slash ∷ render (components pwd path)))
unfolding vfs_resolve_path strlen c_str
vfs_resolve_path_lem pwd path fits =
    let start = set (set (replicate path_size 0) 0 slash) 1 0 in
    let all = components-Normal pwd path in
    let normalized = join_tokens start (components pwd path) in
    let joined = c_str-join_tokens (components pwd path) start all.all refl (omega (arith, fits)) in
    (all, (_, refl, c_str-copied normalized ∙ joined))
