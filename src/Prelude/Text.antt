-- ===== src/Prelude/Text.antt =====
-- Go strings as lists of bytes. The program's own literals are ASCII.
use Prim.Native.Char.{code}
use airbar_finance.Prelude.{
  ℕ, String, ◌≡◌, ◌↔◌, refl, Bool, true, false, List, [], ◌∷◌, arith, ◌==◌, if◌then◌else◌,
}

abbrev pub Text : Type 0
Text = List ℕ

abbrev pub text : String → Text
text String.[] = []
text (String.◌∷◌ c s) = code c ∷ text s

-- `a == b` on strings.
unfoldable pub same : Text → Text → Bool
same [] [] = true
same (a ∷ s) (b ∷ t) = let rest = same s t in if a == b then rest else false
same _ _ = false

abbrev pub is_empty : Text → Bool
is_empty [] = true
is_empty (c ∷ s) = false

pub same_refl : (s : Text) → same s s ≡ true
unfolding same
same_refl [] = refl
same_refl (c ∷ s) = ground (arith, same_refl s)

pub same_sound : (s t : Text) → same s t ≡ true → s ≡ t
unfolding same
same_sound [] [] h = refl
same_sound (a ∷ s) (b ∷ t) h = ground (arith, same_sound s t)
same_sound [] (b ∷ t) h = ground arith
same_sound (a ∷ s) [] h = ground arith

pub same_iff : (s t : Text) → (same s t ≡ true) ↔ (s ≡ t)
same_iff s t = (same_sound s t, λ e. rw e (same_refl t))
