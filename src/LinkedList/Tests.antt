-- ===== src/LinkedList/Tests.antt =====
-- A list of the nodes at 16, 32 and 48.
use munt3os.Base.{ℕ, refl, Bool, List, [], ◌∷◌, arith, ◌==◌, if◌then◌else◌}
use munt3os.LinkedList.{
  Node, World, push_front, push_back, insert_before, insert_after, list_remove_all,
}
use munt3os.LinkedList.Links.{times, IsList}
use munt3os.LinkedList.Insertions.{Inserted, insertions_lem}
use munt3os.LinkedList.Filter.{Filtered, list_remove_all-Filtered}

abbrev blank : Node
blank = record { prev = 0; next = 0; value = 0 }

abbrev three : World
three = record {
  store = λ a.
      if a == 16
      then record { prev = 0; next = 32; value = 7 }
      else if a == 32
      then record { prev = 16; next = 48; value = 8 }
      else if a == 48
      then record { prev = 32; next = 0; value = 7 }
      else blank;
  list = record { head = 16; tail = 48; size = 3 };
}

abbrev nodes : List ℕ
nodes = 16 ∷ 32 ∷ 48 ∷ []

three-IsList : IsList three.store three.list nodes
unfolding times
three-IsList = record {
  chain = omega arith;
  head = refl;
  tail = refl;
  size = refl;
  once = λ a. ground arith;
  few = omega arith;
}

abbrev is_seven : ℕ → Bool
is_seven v = v == 7

insertions_lem_example :
    Inserted three 64 9 [] nodes (push_front 64 9 three)
    × Inserted three 64 9 nodes [] (push_back 64 9 three)
    × Inserted three 64 9 (16 ∷ []) (32 ∷ 48 ∷ []) (insert_before 64 32 9 three)
    × Inserted three 64 9 (16 ∷ 32 ∷ []) (48 ∷ []) (insert_after 64 32 9 three)
unfolding times
insertions_lem_example =
    insertions_lem three 64 9 32 (16 ∷ []) (48 ∷ []) (omega arith) three-IsList refl (omega arith)

list_remove_all-Filtered_example :
    Filtered is_seven three [] nodes 0 (list_remove_all blank is_seven three)
list_remove_all-Filtered_example = list_remove_all-Filtered blank is_seven three nodes three-IsList
