-- ===== src/Text/Laws.antt =====
-- The text functions at concrete inputs.
use merkle_evidence_vault.Prelude.{[], false, none, refl, some, true, ◌∷◌, ◌≡◌}
use merkle_evidence_vault.Prelude.Int.{negsuc, pos}
use merkle_evidence_vault.Text.{
  contains, cut, cut_prefix, cut_suffix, parse_int, split, trim_slashes, trim_space,
}

trim_tests : (trim_space "  a b\t" ≡ "a b") × (trim_space " " ≡ "") × (trim_slashes "/7//" ≡ "7")
unfolding trim_space trim_slashes
trim_tests = (refl, refl, refl)

cut_tests :
    (cut_prefix "/a/" "/a/b" ≡ some "b")
    × (cut_prefix "/a/" "/a" ≡ none)
    × (cut_suffix "/b" "/a/b/b" ≡ some "/a/b")
    × (cut_suffix "/b" "/ab" ≡ none)
unfolding cut_prefix cut_suffix
cut_tests = (refl, refl, refl, refl)

parse_int_tests :
    (parse_int "42" ≡ some (pos 42))
    × (parse_int "-1" ≡ some (negsuc 0))
    × (parse_int "+" ≡ none)
    × (parse_int "1_0" ≡ none)
    × (parse_int "9223372036854775808" ≡ none)
    × (parse_int "-9223372036854775808" ≡ some (negsuc 9223372036854775807))
unfolding parse_int
parse_int_tests = (refl, refl, refl, refl, refl, refl)

split_tests :
    (cut b' ' "Bearer a b" ≡ some ("Bearer", "a b"))
    × (cut b' ' "Bearer" ≡ none)
    × (split b',' "a,,b" ≡ "a" ∷ "" ∷ "b" ∷ [])
    × (contains "my-auditor" "auditor" ≡ true)
    × (contains "audit" "auditor" ≡ false)
unfolding cut split contains cut_prefix
split_tests = (refl, refl, refl, refl, refl)
