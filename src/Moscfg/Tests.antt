-- ===== src/Moscfg/Tests.antt =====
-- A small configuration.
use munt3os.Base.{ℕ, ◌≡◌, refl, List, [], ◌∷◌, arith, pos, negsuc}
use munt3os.Cmdline.Words.{NoZero}
use munt3os.Strings.{strcmp}
use munt3os.Moscfg.{
  cfg_int, cfg_array, skip_ws, skip_to_eol, until, drop_front, drop_back, number_from, parse_digits,
  parse_int, parse_items, parse_array, parse_value, parse_line, parse_round, parse_lines,
  cfg_parse_buf, cfg_get, cfg_get_int,
}
use munt3os.Moscfg.Lines.{split_lines, settings, cfg_parse_buf-settings}

-- `a : int = 0x1f ; b`, a comment, and `v:array=[1, -2]`
abbrev text : List ℕ
text =
    97 ∷ 32 ∷ 58 ∷ 32 ∷ 105 ∷ 110 ∷ 116 ∷ 32 ∷ 61 ∷ 32 ∷ 48 ∷ 120 ∷ 49 ∷ 102 ∷ 32 ∷ 59 ∷ 98 ∷ 10
    ∷ 35 ∷ 120 ∷ 10 ∷ 118 ∷ 58 ∷ 97 ∷ 114 ∷ 114 ∷ 97 ∷ 121 ∷ 61 ∷ 91 ∷ 49 ∷ 44 ∷ 32 ∷ 45 ∷ 50 ∷ 93
    ∷ []

text_settings :
    cfg_parse_buf text
    ≡ record { name = 97 ∷ []; value = cfg_int (pos 31) }
      ∷ record { name = 118 ∷ []; value = cfg_array (pos 1 ∷ negsuc 1 ∷ []) }
      ∷ []
unfolding cfg_parse_buf parse_lines parse_round parse_line parse_value parse_array parse_items
    parse_int parse_digits number_from drop_back drop_front until skip_to_eol skip_ws strcmp
text_settings = refl

text_int : cfg_get_int (cfg_parse_buf text) (97 ∷ []) (pos 7) ≡ pos 31
unfolding cfg_get_int cfg_get cfg_parse_buf parse_lines parse_round parse_line parse_value
    parse_array parse_items parse_int parse_digits number_from drop_back drop_front until
    skip_to_eol skip_ws strcmp
text_int = refl

abbrev two_lines : List ℕ
two_lines = 97 ∷ 58 ∷ 105 ∷ 110 ∷ 116 ∷ 61 ∷ 53 ∷ 10 ∷ 35 ∷ []

two_lines-NoZero : NoZero two_lines
two_lines-NoZero = (
  (λ e. ground (arith, e)),
  (
    (λ e. ground (arith, e)),
    (
      (λ e. ground (arith, e)),
      (
        (λ e. ground (arith, e)),
        (
          (λ e. ground (arith, e)),
          (
            (λ e. ground (arith, e)),
            ((λ e. ground (arith, e)), ((λ e. ground (arith, e)), ((λ e. ground (arith, e)), tt))),
          ),
        ),
      ),
    ),
  ),
)

cfg_parse_buf-settings_example : cfg_parse_buf two_lines ≡ settings (split_lines two_lines)
cfg_parse_buf-settings_example = cfg_parse_buf-settings two_lines two_lines-NoZero
