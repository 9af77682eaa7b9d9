-- ===== src/Numbers/Tests.antt =====
-- Numbers as text.
use munt3os.Base.{◌≡◌, refl, [], ◌∷◌, negsuc}
use munt3os.Strings.{strlen}
use munt3os.Numbers.{digits, swap_ends, reverse_str, uint_to_str, int_to_str}

uint_to_str_test : uint_to_str 0x2af 16 ≡ 50 ∷ 65 ∷ 70 ∷ 0 ∷ []
unfolding uint_to_str digits reverse_str swap_ends strlen
uint_to_str_test = refl

int_to_str_test : int_to_str (negsuc 41) 10 ≡ 45 ∷ 52 ∷ 50 ∷ 0 ∷ []
unfolding int_to_str digits reverse_str swap_ends strlen
int_to_str_test = refl
