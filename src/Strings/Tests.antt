-- ===== src/Strings/Tests.antt =====
-- The string routines at short arrays.
use munt3os.Base.{ℕ, ◌≡◌, refl, some, List, [], ◌∷◌, arith, negsuc}
use munt3os.Strings.{strlen, c_str, strcmp, strchr, strncpy, strcat}
use munt3os.Strings.Append.{c_str-strcat}

abbrev room : List ℕ
room = 97 ∷ 98 ∷ 0 ∷ 9 ∷ 9 ∷ 9 ∷ []

abbrev word : List ℕ
word = 99 ∷ 100 ∷ 0 ∷ 7 ∷ []

less_lem : strcmp room word ≡ negsuc 1
unfolding strcmp
less_lem = refl

found_at : strchr word 100 ≡ some 1
unfolding strchr
found_at = refl

padded : strncpy room word 5 ≡ 99 ∷ 100 ∷ 0 ∷ 0 ∷ 0 ∷ 9 ∷ []
unfolding strncpy
padded = refl

c_str-strcat_example : c_str (strcat room word) ≡ 97 ∷ 98 ∷ 99 ∷ 100 ∷ []
unfolding strlen c_str
c_str-strcat_example = c_str-strcat room word (omega arith)
