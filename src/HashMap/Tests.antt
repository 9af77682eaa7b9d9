-- ===== src/HashMap/Tests.antt =====
-- A map of four chains with the keys "ab" and "c".
use munt3os.Base.{ℕ, ◌+◌, ◌≡◌, refl, true, ◌||◌, none, List, [], ◌∷◌, arith, if◌then◌else◌}
use munt3os.HashMap.{
  HashMap, hash_from, hash_str, matches, find, rehash, grow, put, add_entry, insert, get, has,
  remove,
}
use munt3os.HashMap.Chain.{look}
use munt3os.HashMap.Key.{key_eq}
use munt3os.Strings.{strcmp}
use munt3os.HashMap.Methods.{
  lookup, value_or_null, is_some, IsValid, Wrote, empty, empty-IsValid, get_lem, insert-Wrote,
  remove_lem,
}
use munt3os.HashMap.Table.{Placed, view, total}
use munt3os.HashMap.Move.{rehash_lem}

abbrev ab : List ℕ
ab = 97 ∷ 98 ∷ 0 ∷ []

abbrev letter_c : List ℕ
letter_c = 99 ∷ 0 ∷ []

empty-IsValid_4 : IsValid (empty 4)
empty-IsValid_4 = (empty-IsValid 4 (omega arith)).0

abbrev one : HashMap
one = (insert true true (empty 4) ab 7).1

insert-Wrote_example :
    Wrote (empty 4) ab 7 (insert true true (empty 4) ab 7).0 one
    × ((insert true true (empty 4) ab 7).0 ≡ (true || is_some (lookup (empty 4) ab)))
insert-Wrote_example =
    insert-Wrote (empty 4) ab empty-IsValid_4 true true 7 (omega arith) (omega arith)

one-IsValid : IsValid one
one-IsValid =
    (insert-Wrote (empty 4) ab empty-IsValid_4 true true 7 (omega arith) (omega arith)).0.valid

one_size : one.size ≡ 1
unfolding insert put grow rehash find hash_str hash_from add_entry matches
one_size = refl

one_capacity : one.capacity ≡ 4
unfolding insert put grow rehash find hash_str hash_from add_entry matches
one_capacity = refl

get_lem_example : (get one ab ≡ 7) × (has one ab ≡ true)
unfolding insert put grow rehash find hash_str hash_from add_entry matches look key_eq strcmp
get_lem_example = get_lem one ab one-IsValid

remove_lem_example :
    ((remove one ab).0 ≡ value_or_null (lookup one ab))
    × IsValid (remove one ab).1
    × ((q : List ℕ) → lookup (remove one ab).1 q ≡ (if key_eq ab q then none else lookup one q))
    × ((remove one ab).1.size + (if is_some (lookup one ab) then 1 else 0) ≡ one.size)
remove_lem_example = remove_lem one ab one-IsValid (omega (arith, one_size))

rehash_lem_example :
    Placed 8 (rehash true one 8).1.buckets
    × ((q : List ℕ) → view 8 (rehash true one 8).1.buckets q ≡ view one.capacity one.buckets q)
    × (total (rehash true one 8).1.buckets ≡ total one.buckets)
rehash_lem_example = rehash_lem one 8 (omega arith) one-IsValid.placed
