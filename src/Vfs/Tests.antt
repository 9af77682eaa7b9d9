-- ===== src/Vfs/Tests.antt =====
-- The path "/a/../b/./c", and "d" from "/b".
use munt3os.Base.{ℕ, ◌≡◌, refl, true, none, some, List, [], ◌∷◌, arith}
use munt3os.Strings.{c_str, strcmp, strncpy}
use munt3os.Vfs.{slash, tokens, push_token, push_all, from_root, components, vfs_resolve_path}
use munt3os.Vfs.Paths.{Normal}
use munt3os.Vfs.Render.{render, vfs_resolve_path_lem}

abbrev dots : List ℕ
dots = 47 ∷ 97 ∷ 47 ∷ 46 ∷ 46 ∷ 47 ∷ 98 ∷ 47 ∷ 46 ∷ 47 ∷ 99 ∷ 0 ∷ []

components_test : components none dots ≡ (98 ∷ []) ∷ (99 ∷ []) ∷ []
unfolding components from_root tokens push_all push_token strncpy strcmp
components_test = refl

vfs_resolve_path_lem_example :
    Normal (components none dots)
    × ((resolved : List ℕ) × (vfs_resolve_path true true none (some dots) ≡ some resolved)
        × (c_str resolved ≡ slash ∷ render (components none dots)))
vfs_resolve_path_lem_example = vfs_resolve_path_lem none dots (rw components_test (omega arith))
