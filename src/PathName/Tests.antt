-- ===== src/PathName/Tests.antt =====
-- The examples in the comment on `skipelem`.
use risc_v_operating_system.Base.{
  ℕ, ◌≡◌, refl, ◌&&◌, some, [], ◌∷◌, ltb, ◌==◌, if◌then◌else◌, get_or,
}
use risc_v_operating_system.PathName.{dirsiz, put_name, skipelem}
use risc_v_operating_system.PathName.Element.{skipelem-element}

-- skipelem("///a//bb", name) = "bb", setting name = "a"
skipelem-element_example :
    (skipelem (47 ∷ 47 ∷ 47 ∷ 97 ∷ 47 ∷ 47 ∷ 98 ∷ 98 ∷ []) (λ i. 1)
      ≡ some (98 ∷ 98 ∷ [], put_name (97 ∷ []) (λ i. 1)))
    × ((i : ℕ)
        → put_name (97 ∷ []) (λ i. 1) i ≡ (
            if ltb i dirsiz && ltb i 1
            then get_or (97 ∷ []) i 0
            else if i == 1 && ltb i dirsiz
            then 0
            else 1))
skipelem-element_example = skipelem-element 3 2 97 [] (98 ∷ 98 ∷ []) (λ i. 1) refl refl refl

-- skipelem("a", name) = "", setting name = "a"
last_element : skipelem (97 ∷ []) (λ i. 1) ≡ some ([], put_name (97 ∷ []) (λ i. 1))
unfolding skipelem
last_element = (skipelem-element 0 0 97 [] [] (λ i. 1) refl tt tt).0
