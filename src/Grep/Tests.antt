-- ===== src/Grep/Tests.antt =====
-- Some patterns of grep.
use risc_v_operating_system.Base.{ℕ, ◌≡◌, refl, ◌↔◌, true, List, [], ◌∷◌}
use risc_v_operating_system.Grep.{match, matchhere, matchstar}
use risc_v_operating_system.Grep.Language.{Occurs}
use risc_v_operating_system.Grep.Here.{match_iff}

-- `^ab*$`
abbrev pattern_ab : List ℕ
pattern_ab = 0x5e ∷ 0x61 ∷ 0x62 ∷ 0x2a ∷ 0x24 ∷ []

abbrev abb : List ℕ
abb = 0x61 ∷ 0x62 ∷ 0x62 ∷ []

match_iff_example : (match pattern_ab abb ≡ true) ↔ Occurs pattern_ab abb
match_iff_example = match_iff pattern_ab abb

matches_abb : match pattern_ab abb ≡ true
unfolding match matchhere matchstar
matches_abb = refl
