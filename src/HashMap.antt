-- ===== src/HashMap.antt =====
-- krnl/util/hashmap.c: a table of chains that doubles when three quarters full. Keys are C strings,
-- compared by `strcmp`; the map keeps the caller's pointer, taken here as the bytes that it points to
-- and that must not change. A value is a pointer, 0 for NULL. Whether an allocation succeeds is an
-- argument of the operation that asks for it.
pub mod Key
pub mod Chain
pub mod Table
pub mod Move
pub mod Methods
mod Tests
use munt3os.Base.{
  ℕ, zero, suc, ◌+◌, ◌-◌, ◌*◌, ◌/◌, ◌%◌, ◌^◌, ◌≤◌, ◌<◌, min, max, ◌≡◌, refl, sym, ap, ap₂, ◌∙◌, ◌≢◌,
  ◌↔◌, ◌⊎◌, inl, inr, Bool, true, false, not, ◌&&◌, ◌||◌, Option, none, some, List, [], ◌∷◌, ◌++◌,
  map, append-nil, append_assoc, arith, ℕ_discrete, ltb, leb, ◌==◌, if◌then◌else◌, ltb→lt, lt→ltb,
  ltb→le, le→ltb, leb→le, ==_iff, ==_refl, suc-ne-zero, zero-lt-suc, Bool-cases, Option-cases,
  length, get_elem?, get_or, set, take, drop, replicate, length-append, length-set,
  length-replicate, length-take, length-drop, take_last, drop-nil, drop_all, take_all, drop-append,
  drop-drop, take_last-append, take_last-append_long, take_last_all, take-append-drop, get_or-set,
  get_or_ext, get_or-replicate, mod-wrap, u64, u32, u8, add_u64, sub_u64, add_u32, sub_u32, mul_u32,
  mul_u64, page_size, ℤ, pos, negsuc, sub_ℕ, neg,
}
use Prim.Native.Nat.{bit_xor}
use munt3os.Strings.{strcmp}

-- `hashmap_entry_t`; `next` is the order of the list.
pub record Entry : Type 0 where
  pub key : List ℕ
  pub value : ℕ
  pub hash : ℕ

abbrev pub Chain : Type 0
Chain = List Entry

-- `hashmap_t`
pub record HashMap : Type 0 where
  pub buckets : List Chain
  pub capacity : ℕ
  pub size : ℕ

-- 32-bit FNV-1a over the bytes before the terminator.
unfoldable pub hash_from : ℕ → List ℕ → ℕ
hash_from h [] = h
hash_from h (x ∷ xs) =
    let rest = hash_from (mul_u32 (bit_xor h (u8 x)) 16777619) xs in if x == 0 then h else rest

unfoldable pub hash_str : List ℕ → ℕ
unfolding hash_from
hash_str key = hash_from 2166136261 key

abbrev pub is_zero : ℤ → Bool
is_zero (pos n) = n == 0
is_zero (negsuc n) = false

-- `e->hash == h && strcmp(e->key, key) == 0`
unfoldable pub matches : ℕ → List ℕ → Entry → Bool
matches h key e = (e.hash == h) && is_zero (strcmp e.key key)

-- One step of the loop in `rehash`: the entry goes to the front of its new chain.
unfoldable pub move_entry : ℕ → Entry → List Chain → List Chain
move_entry cap e bs = set bs (e.hash % cap) (e ∷ get_or bs (e.hash % cap) [])

unfoldable pub move_chain : ℕ → Chain → List Chain → List Chain
unfolding move_entry
move_chain cap [] bs = bs
move_chain cap (e ∷ es) bs = move_chain cap es (move_entry cap e bs)

unfoldable pub move_all : ℕ → List Chain → List Chain → List Chain
unfolding move_chain
move_all cap [] bs = bs
move_all cap (c ∷ cs) bs = move_all cap cs (move_chain cap c bs)

-- `allocated` says whether `khmalloc` gave the new table.
unfoldable pub rehash : Bool → HashMap → ℕ → Bool × HashMap
unfolding move_all
rehash false map new_cap = (false, map)
rehash true map new_cap = (
  true,
  record map { buckets = move_all new_cap map.buckets (replicate new_cap []); capacity = new_cap },
)

-- The allocations of `hashmap_create`: the two caches, the map, the table.
unfoldable pub create : Bool → Bool → Bool → ℕ → Option HashMap
create caches map_ok table_ok capacity =
    let n = if capacity == 0 then 16 else capacity in
    if not caches
    then none
    else if not map_ok
    then none
    else if not table_ok
    then none
    else some (record { buckets = replicate n []; capacity = n; size = 0 })

unfoldable pub clear : HashMap → HashMap
clear map = record map { buckets = replicate map.capacity []; size = 0 }

-- The search for an entry, as a loop over the chain: its value, if there is one.
unfoldable pub find : ℕ → List ℕ → Chain → Option ℕ
unfolding matches
find h key [] = none
find h key (e ∷ es) = if matches h key e then some e.value else find h key es

-- `e->value = value` at the entry that the search finds.
unfoldable pub assign : ℕ → List ℕ → ℕ → Chain → Chain
unfolding matches
assign h key v [] = []
assign h key v (e ∷ es) =
    if matches h key e then record e { value = v } ∷ es else e ∷ assign h key v es

-- `*pp = e->next` at that entry.
unfoldable pub unlink : ℕ → List ℕ → Chain → Chain
unfolding matches
unlink h key [] = []
unlink h key (e ∷ es) = if matches h key e then es else e ∷ unlink h key es

abbrev pub bucket : HashMap → ℕ → Chain
bucket map h = get_or map.buckets (h % map.capacity) []

-- The test and the call at the head of `hashmap_set`; a failure of `rehash` is not looked at.
unfoldable pub grow : Bool → HashMap → HashMap
unfolding rehash
grow allocated map =
    if leb (mul_u32 map.capacity 3 / 4) map.size
    then (rehash allocated map (mul_u32 map.capacity 2)).1
    else map

-- The entry that `hashmap_set` adds for a key that is not there, at the front of its chain.
unfoldable pub add_entry : Bool → HashMap → List ℕ → ℕ → Bool × HashMap
unfolding hash_str
add_entry false map key v = (false, map)
add_entry true map key v =
    let h = hash_str key in
    (
      true,
      record map {
        buckets =
            set map.buckets (h % map.capacity)
              (record { key = key; value = v; hash = h } ∷ bucket map h);
        size = add_u32 map.size 1;
      },
    )

-- What `hashmap_set` does behind that.
unfoldable pub put : Bool → HashMap → List ℕ → ℕ → Bool × HashMap
unfolding find assign hash_str add_entry
put allocated map key v =
    let h = hash_str key in
    let c = bucket map h in
    elim (find h key c) [
      | some old ↦
          (true, record map { buckets = set map.buckets (h % map.capacity) (assign h key v c) })
      | none ↦ add_entry allocated map key v
    ]

-- `table_ok` and `entry_ok` say whether the two allocations succeed.
unfoldable pub insert : Bool → Bool → HashMap → List ℕ → ℕ → Bool × HashMap
unfolding grow put
insert table_ok entry_ok map key v = put entry_ok (grow table_ok map) key v

unfoldable pub get : HashMap → List ℕ → ℕ
unfolding find hash_str
get map key = elim (find (hash_str key) key (bucket map (hash_str key))) [ some v ↦ v | none ↦ 0 ]

unfoldable pub has : HashMap → List ℕ → Bool
unfolding find hash_str
has map key = elim (find (hash_str key) key (bucket map (hash_str key))) [
  | some v ↦ true
  | none ↦ false
]

unfoldable pub remove : HashMap → List ℕ → ℕ × HashMap
unfolding find unlink hash_str
remove map key =
    let h = hash_str key in
    let c = bucket map h in
    elim (find h key c) [
      | none ↦ (0, map)
      | some v ↦ (
        v,
        record map {
          buckets = set map.buckets (h % map.capacity) (unlink h key c);
          size = sub_u32 map.size 1;
        },
      )
    ]
