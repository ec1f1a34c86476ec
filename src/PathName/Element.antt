-- ===== src/PathName/Element.antt =====
-- What `skipelem` finds in a path.
use risc_v_operating_system.Base.{
  ℕ, zero, suc, ◌+◌, ◌-◌, ◌≡◌, refl, ap, inl, inr, true, false, ◌&&◌, none, some, List, [], ◌∷◌,
  ◌++◌, arith, ltb, leb, ◌==◌, if◌then◌else◌, Bool-cases, occurrences, length, get_or, update_lem,
}
use risc_v_operating_system.Contents.{copied}
use risc_v_operating_system.PathName.{
  slash, dirsiz, skip_slashes, element_end, element, put_name, element_found, skipelem,
}

-- `n` slashes before a path
abbrev pub after_slashes : ℕ → List ℕ → List ℕ
after_slashes zero path = path
after_slashes (suc n) path = slash ∷ after_slashes n path

-- A path that is empty or begins with no slash, and one that is empty or begins with one.
abbrev pub IsStripped : List ℕ → Type 0
IsStripped [] = Unit
IsStripped (c ∷ path) = (c == slash) ≡ false

abbrev pub IsEnd : List ℕ → Type 0
IsEnd [] = Unit
IsEnd (c ∷ path) = c ≡ slash

skip_slashes-after :
    (n : ℕ) (path : List ℕ) → IsStripped path → skip_slashes (after_slashes n path) ≡ path
unfolding skip_slashes
skip_slashes-after zero [] h = refl
skip_slashes-after zero (c ∷ path) h = rw h refl
skip_slashes-after (suc n) path h = skip_slashes-after n path h

element-append :
    (elem rest : List ℕ)
    → occurrences slash elem ≡ 0
    → IsEnd rest
    → (element (elem ++ rest) ≡ elem) × (element_end (elem ++ rest) ≡ rest)
unfolding element element_end
element-append [] [] no_slash h = (refl, refl)
element-append [] (c ∷ rest) no_slash h =
    let stop : (c == slash) ≡ true = ground (arith, h) in (rw stop refl, rw stop refl)
element-append (c ∷ elem) rest no_slash h =
    let go : (c == slash) ≡ false = ground arith in
    let more = element-append elem rest (ground arith) h in
    (rw go (ap (λ cs. c ∷ cs) more.0), rw go more.1)

copied_zero :
    (from : ℕ → ℕ) (len : ℕ) (g : ℕ → ℕ) (i : ℕ)
    → copied 0 from len g i ≡ (if ltb i len then from i else g i)
unfolding copied
copied_zero from len g i =
    let start : leb 0 i && ltb i (0 + len) ≡ ltb i len = ground arith in
    let same : i - 0 ≡ i = omega arith in rw (start, same) refl

put_name_lem :
    (s : List ℕ) (name : ℕ → ℕ) (i : ℕ)
    → put_name s name i ≡ (
        if ltb i dirsiz && ltb i (length s)
        then get_or s i 0
        else if i == length s && ltb i dirsiz
        then 0
        else name i)
unfolding put_name
put_name_lem s name i = elim (Bool-cases (leb dirsiz (length s))) [
  | inl long ↦ rw long (ground (arith, copied_zero (λ j. get_or s j 0) dirsiz name i))
  | inr short ↦ rw short (
      ground (
        arith,
        copied_zero (λ j. get_or s j 0) (length s) name i,
        update_lem (copied 0 (λ j. get_or s j 0) (length s) name) (length s) i 0,
      ))
]

-- In a path of some slashes, an element with no slash in it, and a rest that is empty or begins with
-- slashes, `skipelem` finds the element, and returns the rest without its leading slashes. `name`
-- holds the element's first 14 characters, with a 0 behind them if there are fewer, and is not
-- changed elsewhere.
pub skipelem-element :
    (n m c : ℕ) (elem next : List ℕ) (name : ℕ → ℕ)
    → occurrences slash (c ∷ elem) ≡ 0
    → IsStripped next
    → IsEnd (after_slashes m next)
    → (skipelem (after_slashes n (c ∷ elem ++ after_slashes m next)) name
        ≡ some (next, put_name (c ∷ elem) name))
      × ((i : ℕ)
          → put_name (c ∷ elem) name i ≡ (
              if ltb i dirsiz && ltb i (length (c ∷ elem))
              then get_or (c ∷ elem) i 0
              else if i == length (c ∷ elem) && ltb i dirsiz
              then 0
              else name i))
unfolding skipelem element_found
skipelem-element n m c elem next name no_slash stripped ends =
    let go : (c == slash) ≡ false = ground arith in
    let parts = element-append (c ∷ elem) (after_slashes m next) no_slash ends in
    (
      rw
          (
            skip_slashes-after n (c ∷ elem ++ after_slashes m next) go,
            parts.0,
            parts.1,
            skip_slashes-after m next stripped,
          )
          refl,
      put_name_lem (c ∷ elem) name,
    )

-- In a path of slashes alone, `skipelem` finds nothing.
pub skipelem-none : (n : ℕ) (name : ℕ → ℕ) → skipelem (after_slashes n []) name ≡ none
unfolding skipelem element_found
skipelem-none n name = rw (skip_slashes-after n [] tt) refl
