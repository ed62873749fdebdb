-- ===== src/Prelude/Texts.antt =====
-- Text as Go sees it: whole texts compared as native strings, or byte sequences where the code
-- looks inside.
use Prim.Native.Nat.{ℕ}
use Prim.Native.Char.{code}
use Prim.Native.String.{String}
use text.Mathlib.Text.{◌==◌ as str_eq}
use text.Mathlib.TextEquality.{eq_iff}
use mathlib.Core.Path.{◌≡◌, refl, sym, ◌∙◌}
use mathlib.Core.Bool.{Bool, true, false, false≢true, ◌&&◌, ◌||◌}
use mathlib.Core.List.{List, [], ◌∷◌, ◌++◌}
use mosona_manager.Prelude.Tests.{◌==◌}
use native.Mathlib.Omega.{arith}

unfoldable pub String-discrete : Discrete String
String-discrete a b = decide (str_eq a b) refl
  where
    decide : (x : Bool) → str_eq a b ≡ x → Dec (a ≡ b)
    decide true e = yes ((eq_iff a b).0 e)
    decide false e = no (λ p. false≢true (sym e ∙ (eq_iff a b).1 p))

-- the bytes of an ASCII text
abbrev pub bytes : String → List ℕ
bytes String.[] = []
bytes (String.◌∷◌ c s) = code c ∷ bytes s

-- `strings.HasPrefix` and `strings.Contains`, the text first
unfoldable pub has_prefix : List ℕ → List ℕ → Bool
has_prefix s [] = true
has_prefix [] (p ∷ ps) = false
has_prefix (c ∷ s) (p ∷ ps) = c == p && has_prefix s ps

unfoldable pub contains : List ℕ → List ℕ → Bool
unfolding has_prefix
contains [] p = has_prefix [] p
contains (c ∷ s) p = has_prefix (c ∷ s) p || contains s p

-- what the end of a text contains, the text contains
pub contains-prepend : (s t p : List ℕ) → contains t p ≡ true → contains (s ++ t) p ≡ true
unfolding contains
contains-prepend [] t p h = h
contains-prepend (c ∷ s) t p h = ground (arith, contains-prepend s t p h)
