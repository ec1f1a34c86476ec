-- ===== src/Grep/Language.antt =====
-- What a pattern of grep means.
use risc_v_operating_system.Base.{
  ℕ, ◌≡◌, Bool, true, false, ◌&&◌, ◌||◌, List, [], ◌∷◌, ◌++◌, ◌==◌, if◌then◌else◌, length,
}
use risc_v_operating_system.Grep.{caret, dot, star, dollar}

-- a character or `.`, such a thing and a `*`, and a `$` at the end
pub data Item : Type 0 where
  one : ℕ → Item
  many : ℕ → Item
  at_end : Item

unfoldable pub items : List ℕ → List Item
items [] = []
items (c ∷ []) = if c == dollar then at_end ∷ [] else one c ∷ []
items (c ∷ d ∷ re) = if d == star then many c ∷ items re else one c ∷ items (d ∷ re)

-- the character stands for this one
abbrev pub stands_for : (c t : ℕ) → Bool
stands_for c t = c == dot || c == t

abbrev pub all_stand : (c : ℕ) → List ℕ → Bool
all_stand c [] = true
all_stand c (t ∷ text) = stands_for c t && all_stand c text

-- A text in two parts.
pub record Split (P : List ℕ → List ℕ → Type 0) (text : List ℕ) : Type 0 where
  pub front : List ℕ
  pub back : List ℕ
  pub whole : text ≡ front ++ back
  pub holds : P front back

-- The text starts with what the items stand for.
abbrev pub Starts : List Item → List ℕ → Type 0
Starts [] text = Unit {0}
Starts (one c ∷ is) text = Split (λ u v. (length u ≡ 1) × (all_stand c u ≡ true) × Starts is v) text
Starts (many c ∷ is) text = Split (λ u v. (all_stand c u ≡ true) × Starts is v) text
Starts (at_end ∷ is) text = (text ≡ []) × Starts is text

-- The pattern occurs in the text: after a `^` at the start, else somewhere.
abbrev OccursAt : (first_only : Bool) → (re re' text : List ℕ) → Type 0
OccursAt true re re' text = Starts (items re') text
OccursAt false re re' text = Split (λ u v. Starts (items re) v) text

abbrev pub Occurs : (re text : List ℕ) → Type 0
Occurs [] text = OccursAt false [] [] text
Occurs (c ∷ re) text = OccursAt (c == caret) (c ∷ re) re text
