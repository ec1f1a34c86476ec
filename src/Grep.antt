-- ===== src/Grep.antt =====
-- user/grep.c: the matcher. A string is the list of its characters, without the 0 at its end.
pub mod Language
pub mod Star
pub mod Here
mod Tests
use risc_v_operating_system.Base.{
  ℕ, zero, suc, ◌+◌, ◌-◌, ◌*◌, ◌/◌, ◌%◌, ◌^◌, ◌≤◌, ◌<◌, ◌≡◌, refl, sym, ap, ◌∙◌, fun_ext, ◌≢◌, ◌↔◌,
  ◌⊎◌, inl, inr, Bool, true, false, ◌&&◌, ◌||◌, not, Option, none, some, List, [], ◌∷◌, ◌++◌, map,
  arith, ltb, leb, ◌==◌, if◌then◌else◌, ==_iff, Bool-cases, Option-cases, occurrences, remove,
  occurrences-remove, length, get_or, take, drop, update, update_self, update_ne, update_lem, Run,
  ok, panic, ◌>>=◌, ◌>>◌, panic_if, Safely, safely, Safely-bind, Safely-mono,
}

abbrev pub caret : ℕ
caret = 0x5e

abbrev pub dot : ℕ
dot = 0x2e

abbrev pub star : ℕ
star = 0x2a

abbrev pub dollar : ℕ
dollar = 0x24

-- `*text == '\0'`
abbrev pub is_end : List ℕ → Bool
is_end [] = true
is_end (t ∷ text) = false

-- `text + 1`
abbrev pub after : List ℕ → List ℕ
after [] = []
after (t ∷ text) = text

-- `c == '.' || c == *text`, at a character of the text
abbrev pub accepts : (c : ℕ) → List ℕ → Bool
accepts c [] = false
accepts c (t ∷ text) = c == dot || c == t

-- `matchstar(c, re, text)`, where `rest` is `matchhere` of `re`
unfoldable pub matchstar : (rest : List ℕ → Bool) → (c : ℕ) → (text : List ℕ) → Bool
matchstar rest c [] = rest []
matchstar rest c (t ∷ text) = rest (t ∷ text) || (accepts c (t ∷ text) && matchstar rest c text)

unfoldable pub matchhere : (re text : List ℕ) → Bool
matchhere [] text = true
matchhere (c ∷ []) text =
    if c == dollar then is_end text else accepts c text && matchhere [] (after text)
matchhere (c ∷ d ∷ re) text =
    if d == star
    then matchstar (matchhere re) c text
    else accepts c text && matchhere (d ∷ re) (after text)

-- The loop of `match`.
unfoldable pub match_loop : (re text : List ℕ) → Bool
match_loop re [] = matchhere re []
match_loop re (t ∷ text) = matchhere re (t ∷ text) || match_loop re text

unfoldable pub match : (re text : List ℕ) → Bool
match [] text = match_loop [] text
match (c ∷ re) text = if c == caret then matchhere re text else match_loop (c ∷ re) text
