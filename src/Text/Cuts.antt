-- ===== src/Text/Cuts.antt =====
-- A text that is put together is cut at the same place.
use Prim.Native.Char.{Char, code}
use Prim.Native.String
use Prim.Native.String.{count}
use text.Mathlib.TextLemmas.{
  cons-append, length-append as count_append, length-cons as count_cons, nil-append as nil_left,
}
use merkle_evidence_vault.Prelude.{
  none, ℕ, Bool-cases, String, ap, arith, eq_iff, eq_refl, false, inl, inr, refl, some, ◌==◌, ◌≡◌,
  string_key,
}
use merkle_evidence_vault.Text.{cut, cut_prefix, cut_suffix}

pub cut_prefix-append : (p s : String) → cut_prefix p (String.◌++◌ p s) ≡ some s
unfolding cut_prefix
cut_prefix-append String.[] s = rw (nil_left s) refl
cut_prefix-append (String.◌∷◌ c p) s =
    let rest = cut_prefix-append p s in rw (cons-append c p s) (ground arith)

longer : (c : Char) (s p : String) → (String.◌∷◌ c (String.◌++◌ s p) == p) ≡ false
longer c s p = elim (Bool-cases (String.◌∷◌ c (String.◌++◌ s p) == p)) [
  | inl same ↦
      let e = ap count ((eq_iff (String.◌∷◌ c (String.◌++◌ s p)) p).0 same) in
      absurd (omega (arith, count_append s p, count_cons c (String.◌++◌ s p)))
  | inr differs ↦ differs
]

pub cut_suffix-append : (p s : String) → cut_suffix p (String.◌++◌ s p) ≡ some s
unfolding cut_suffix
cut_suffix-append String.[] String.[] = refl
cut_suffix-append (String.◌∷◌ c p) String.[] =
    rw (nil_left (String.◌∷◌ c p), eq_refl (String.◌∷◌ c p)) refl
cut_suffix-append p (String.◌∷◌ c s) =
    let rest = cut_suffix-append p s in
    let differs = longer c s p in rw (cons-append c s p, differs, rest) refl

-- A text without the separator is cut off where the separator stands behind it.
pub cut-append :
    (sep : ℕ) (c : Char) (s t : String)
    → code c ≡ sep
    → cut sep s ≡ none
    → cut sep (String.◌++◌ s (String.◌∷◌ c t)) ≡ some (s, t)
unfolding cut
cut-append sep c String.[] t same absent = rw (nil_left (String.◌∷◌ c t)) (ground arith)
cut-append sep c (String.◌∷◌ d s) t same absent =
    let later = cut-append sep c s t same in rw (cons-append d s (String.◌∷◌ c t)) (ground arith)
