-- ===== src/HashMap/Methods.antt =====
-- The operations of the map against a function from keys to values.
use munt3os.Base.{
  ℕ, ◌+◌, ◌/◌, ◌^◌, ◌<◌, ◌≡◌, refl, sym, ap, ap₂, ◌∙◌, inl, inr, Bool, true, false, not, ◌&&◌, ◌||◌,
  Option, none, some, List, [], map, arith, leb, ◌==◌, if◌then◌else◌, Bool-cases, Option-cases,
  get_or, set, replicate, sub_u32, mul_u32,
}
use munt3os.HashMap.{
  Entry, Chain, HashMap, hash_str, find, assign, unlink, rehash, grow, put, add_entry, insert, get,
  has, remove, create, clear,
}
use munt3os.HashMap.Chain.{
  look, occurrences, look-none, occurrences-zero, find-look, look-assign, occurrences-assign,
  assign-IsHashed, length-assign, look-unlink, occurrences-unlink, unlink-IsHashed, length-unlink,
  occurrences_congr,
}
use mathlib.Core.Path.{subst}
use munt3os.HashMap.Key.{key_eq}
use munt3os.HashMap.Move.{rehash_lem, empty-Placed, total-replicate, replicate_read}
use munt3os.HashMap.Table.{
  home, Placed, view, total, set-Placed, view-set, total_set, home_congr, grown-Placed, grown-view,
  grown-total,
}

-- The value under a key, if there is one.
abbrev pub lookup : HashMap → List ℕ → Option ℕ
lookup map q = view map.capacity map.buckets q

pub record IsValid (map : HashMap) : Type 0 where
  pub placed : Placed map.capacity map.buckets
  pub positive : 0 < map.capacity
  pub counted : map.size ≡ total map.buckets

abbrev pub value_or_null : Option ℕ → ℕ
value_or_null none = 0
value_or_null (some v) = v

abbrev pub is_some : Option ℕ → Bool
is_some none = false
is_some (some v) = true

-- A table of `n` chains without entries.
abbrev pub empty : ℕ → HashMap
empty n = record { buckets = replicate n []; capacity = n; size = 0 }

pub empty-IsValid : (n : ℕ) → 0 < n → IsValid (empty n) × ((q : List ℕ) → lookup (empty n) q ≡ none)
unfolding look
empty-IsValid n positive = (
  record { placed = empty-Placed n; positive = positive; counted = sym (total-replicate n) },
  λ q. rw (replicate_read n (home q n)),
)

-- `hashmap_clear` keeps the capacity and leaves a valid map without keys.
pub clear_lem :
    (map : HashMap)
    → IsValid map
    → IsValid (clear map) × ((q : List ℕ) → lookup (clear map) q ≡ none)
unfolding clear
clear_lem map v = empty-IsValid map.capacity v.positive

-- A map that `hashmap_create` returns is valid and without keys, whatever capacity was asked for.
pub create_lem :
    (caches map_ok table_ok : Bool) (capacity : ℕ) (map : HashMap)
    → create caches map_ok table_ok capacity ≡ some map
    → IsValid map × ((q : List ℕ) → lookup map q ≡ none)
unfolding create
create_lem false m t capacity map e = cc
create_lem true false t capacity map e = cc
create_lem true true false capacity map e = cc
create_lem true true true capacity map e =
    let same : empty (if capacity == 0 then 16 else capacity) ≡ map = cc in
    subst (λ m. IsValid m × ((q : List ℕ) → lookup m q ≡ none)) same
      (empty-IsValid _ (ground arith))

search_lem :
    (map : HashMap) (q : List ℕ)
    → IsValid map
    → find (hash_str q) q (get_or map.buckets (home q map.capacity) []) ≡ lookup map q
search_lem map q v = find-look q _ (v.placed.hashed (home q map.capacity))

-- `hashmap_get` returns the value under the key, NULL if there is none, and `hashmap_has` says
-- whether there is one.
pub get_lem :
    (map : HashMap) (q : List ℕ)
    → IsValid map
    → (get map q ≡ value_or_null (lookup map q)) × (has map q ≡ is_some (lookup map q))
unfolding get has
get_lem map q v = ground (arith, search_lem map q v)

-- Whether or not it grows the table, the head of `hashmap_set` keeps every value.
pub grow_lem :
    (ok : Bool) (map : HashMap)
    → IsValid map
    → map.capacity < 2 ^ 30
    → let map' = grow ok map in
      IsValid map' × (map'.size ≡ map.size) × ((q : List ℕ) → lookup map' q ≡ lookup map q)
unfolding grow rehash
grow_lem ok map v small = elim (Bool-cases (leb (mul_u32 map.capacity 3 / 4) map.size)) [
  | inr roomy ↦ rw roomy (v, refl, λ q. refl)
  | inl full ↦ rw full (doubled ok)
]
  where
    doubled :
        (b : Bool)
        → let map' = (rehash b map (mul_u32 map.capacity 2)).1 in
          IsValid map' × (map'.size ≡ map.size) × ((q : List ℕ) → lookup map' q ≡ lookup map q)
    doubled false = (v, refl, λ q. refl)
    doubled true =
        let (p, reads, count) =
          rehash_lem map (mul_u32 map.capacity 2) (omega (arith, v.positive)) v.placed in
        (
          record {
            placed = p;
            positive = omega (arith, v.positive);
            counted = omega (arith, count, v.counted);
          },
          refl,
          reads,
        )

-- What a write of `value` under `k` leaves, where `done` is what the code returned.
pub record Wrote (map : HashMap) (k : List ℕ) (value : ℕ) (done : Bool) (map' : HashMap)
    : Type 0 where
  pub valid : IsValid map'
  pub reads :
      (q : List ℕ) → lookup map' q ≡ (if done && key_eq k q then some value else lookup map q)
  pub size : map'.size ≡ map.size + (if done && not (is_some (lookup map k)) then 1 else 0)

module _ (map : HashMap) (k : List ℕ) (v : IsValid map) where
  abbrev chain_of : Chain
  chain_of = get_or map.buckets (home k map.capacity) []

  add_entry-Wrote :
      (ok : Bool) (value : ℕ)
      → lookup map k ≡ none
      → map.size + 1 < 2 ^ 32
      → let (done, map') = add_entry ok map k value in
        Wrote map k value done map' × (done ≡ (ok || false))
  unfolding add_entry
  add_entry-Wrote false value absent room =
      (record { valid = v; reads = λ q. refl; size = omega arith }, refl)
  add_entry-Wrote true value absent room =
      let e : Entry = record { key = k; value = value; hash = hash_str k } in
      (
        record {
          valid = record {
            placed = grown-Placed map.capacity map.buckets v.positive v.placed e refl absent;
            positive = v.positive;
            counted = omega (
              arith,
              v.counted,
              grown-total map.capacity map.buckets v.positive v.placed e refl absent,
            );
          };
          reads = λ q. grown-view map.capacity map.buckets v.positive v.placed e refl absent q;
          size = rw absent (omega arith);
        },
        refl,
      )

  put-found :
      (ok : Bool) (value old : ℕ)
      → lookup map k ≡ some old
      → put ok map k value ≡ (
        true,
        record map {
          buckets = set map.buckets (home k map.capacity) (assign (hash_str k) k value chain_of);
        },
      )
  unfolding put
  put-found ok value old found = rw (put, search_lem map k v, found)

  put-new :
      (ok : Bool) (value : ℕ) → lookup map k ≡ none → put ok map k value ≡ add_entry ok map k value
  unfolding put
  put-new ok value absent = rw (put, search_lem map k v, absent)

  put-Wrote :
      (ok : Bool) (value : ℕ)
      → map.size + 1 < 2 ^ 32
      → let (done, map') = put ok map k value in
        Wrote map k value done map' × (done ≡ (ok || is_some (lookup map k)))
  put-Wrote ok value room = elim (Option-cases (lookup map k)) [
    | inr (old, found) ↦ rw (put-found ok value old found) (
      record {
        valid = record {
          placed =
              set-Placed map.capacity map.buckets v.positive v.placed k
                (assign (hash_str k) k value chain_of)
                (assign-IsHashed k value chain_of (v.placed.hashed _))
                (λ q. omega (arith, occurrences-assign k q value chain_of));
          positive = v.positive;
          counted = omega (
            arith,
            v.counted,
            total_set map.capacity map.buckets v.positive v.placed k
                (assign (hash_str k) k value chain_of),
            length-assign k value chain_of,
          );
        };
        reads = λ q.
            view-set map.capacity map.buckets v.positive v.placed k
              (assign (hash_str k) k value chain_of) (some value) q
              (look-assign k q value old chain_of (v.placed.hashed _) found);
        size = rw found (omega arith);
      },
      ground arith,
    )
    | inl absent ↦ rw (put-new ok value absent, absent) (add_entry-Wrote ok value absent room)
  ]

module _ (map : HashMap) (k : List ℕ) (v : IsValid map) where
  abbrev its_chain : Chain
  its_chain = get_or map.buckets (home k map.capacity) []

  -- `hashmap_set` on a valid map of less than 2 ^ 30 chains and 2 ^ 32 - 1 entries keeps it valid.
  -- It succeeds unless the key is new and there is no memory for its entry; then it maps the key, and
  -- no other, to the value and counts a new key. A failure changes no lookup. It does not matter
  -- whether the table could grow.
  pub insert-Wrote :
      (table_ok entry_ok : Bool) (value : ℕ)
      → map.capacity < 2 ^ 30
      → map.size + 1 < 2 ^ 32
      → let (done, map') = insert table_ok entry_ok map k value in
        Wrote map k value done map' × (done ≡ (entry_ok || is_some (lookup map k)))
  unfolding insert
  insert-Wrote table_ok entry_ok value small room =
      let map' = grow table_ok map in
      let (v', size, reads) = grow_lem table_ok map v small in
      let (w, done) = put-grown map' v' size in
      let same : is_some (lookup map' k) ≡ is_some (lookup map k) = ap is_some (reads k) in
      (
        record {
          valid = w.valid;
          reads = λ q.
              w.reads q
              ∙ ap
                  (λ (o : Option ℕ).
                    if (put entry_ok map' k value).0 && key_eq k q then some value else o)
                  (reads q);
          size =
              w.size
              ∙ ap₂
                  (λ (n : ℕ) (b : Bool).
                    n + (if (put entry_ok map' k value).0 && not b then 1 else 0))
                  size same;
        },
        done ∙ ap (λ (b : Bool). entry_ok || b) same,
      )
    where
      put-grown :
          (m : HashMap)
          → IsValid m
          → m.size ≡ map.size
          → let (done, map') = put entry_ok m k value in
            Wrote m k value done map' × (done ≡ (entry_ok || is_some (lookup m k)))
      put-grown m v' e = put-Wrote m k v' entry_ok value (omega arith)

  remove-found :
      (old : ℕ)
      → lookup map k ≡ some old
      → remove map k ≡ (
        old,
        record map {
          buckets = set map.buckets (home k map.capacity) (unlink (hash_str k) k its_chain);
          size = sub_u32 map.size 1;
        },
      )
  unfolding remove
  remove-found old found = rw (remove, search_lem map k v, found)

  remove-absent : lookup map k ≡ none → remove map k ≡ (0, map)
  unfolding remove
  remove-absent absent = rw (remove, search_lem map k v, absent)

  -- `hashmap_remove` returns the value under the key, NULL if there is none, keeps the map valid,
  -- unmaps that key and no other, and counts one less if the key was there.
  pub remove_lem :
      map.size < 2 ^ 32
      → let (value, map') = remove map k in
        (value ≡ value_or_null (lookup map k))
        × IsValid map'
        × ((q : List ℕ) → lookup map' q ≡ (if key_eq k q then none else lookup map q))
        × (map'.size + (if is_some (lookup map k) then 1 else 0) ≡ map.size)
  remove_lem room = elim (Option-cases (lookup map k)) [
    | inl absent ↦ rw (remove-absent absent, absent) (refl, v, λ q. unmapped q absent, omega arith)
    | inr (old, found) ↦
        let c = unlink (hash_str k) k its_chain in
        let shorter = length-unlink k old its_chain (v.placed.hashed _) found in
        let sum = total_set map.capacity map.buckets v.positive v.placed k c in
        let filled : 0 < map.size = omega (arith, shorter, sum, v.counted) in
        rw (remove-found old found, found)
          (
            refl,
            record {
              placed =
                  set-Placed map.capacity map.buckets v.positive v.placed k c
                    (unlink-IsHashed k its_chain (v.placed.hashed _))
                    (λ q. omega (arith, occurrences-unlink k q its_chain));
              positive = v.positive;
              counted = omega (arith, shorter, sum, v.counted);
            },
            λ q.
                view-set map.capacity map.buckets v.positive v.placed k c none q
                  (look-unlink k q its_chain (v.placed.hashed _) (v.placed.once q _)),
            omega arith,
          )
  ]
    where
      unmapped :
          (q : List ℕ)
          → lookup map k ≡ none
          → lookup map q ≡ (if key_eq k q then none else lookup map q)
      unmapped q absent = elim (Bool-cases (key_eq k q)) [
        | inr other ↦ rw other
        | inl same ↦
            let e = home_congr k q map.capacity same in
            let zero_q : occurrences q (get_or map.buckets (home k map.capacity) []) ≡ 0 =
              sym (occurrences_congr k q its_chain same) ∙ occurrences-zero k its_chain absent in
            rw same (rw (← e) (look-none q its_chain zero_q))
      ]
