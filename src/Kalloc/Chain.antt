-- ===== src/Kalloc/Chain.antt =====
-- The free list as a list of page addresses.
use risc_v_operating_system.Base.{
  occurrences, ℕ, zero, suc, ◌+◌, ◌/◌, ◌%◌, ◌≤◌, ◌<◌, ◌≡◌, refl, ◌∙◌, ◌≢◌, ◌⊎◌, inl, inr, Bool,
  ◌&&◌, List, [], ◌∷◌, arith, ltb, leb, ◌==◌, Bool-cases, update_ne, update_lem,
}
use risc_v_operating_system.Kalloc.{page_size, phystop, fill, fill_page}

abbrev pub is_page : (kernel_end p : ℕ) → Bool
is_page kernel_end p = p % page_size == 0 && leb kernel_end p && ltb p phystop

-- The list that starts at `r` holds the pages `ps` in this order.
abbrev pub IsChain : (ℕ → ℕ) → ℕ → List ℕ → Type 0
IsChain ram r [] = r ≡ 0
IsChain ram r (p ∷ ps) = (r ≡ p) × (p ≢ 0) × IsChain ram (ram (p / 8)) ps

-- A list is the same in two memories that agree on its pages' first words.
pub IsChain-frame :
    (ram ram' : ℕ → ℕ) (r : ℕ) (ps : List ℕ)
    → ((q : ℕ) → 0 < occurrences q ps → ram' (q / 8) ≡ ram (q / 8))
    → IsChain ram r ps
    → IsChain ram' r ps
IsChain-frame ram ram' r [] same c = c
IsChain-frame ram ram' r (p ∷ ps) same c =
    let here : ram' (p / 8) ≡ ram (p / 8) = same p (ground arith) in
    (c.0, c.1, rw here (IsChain-frame ram ram' (ram (p / 8)) ps (λ q h. same q (ground arith)) c.2))

-- A list does not run through 0.
pub occurrences-zero : (ram : ℕ → ℕ) (r : ℕ) (ps : List ℕ) → IsChain ram r ps → occurrences 0 ps ≡ 0
occurrences-zero ram r [] c = refl
occurrences-zero ram r (p ∷ ps) c = ground (arith, c.1, occurrences-zero ram (ram (p / 8)) ps c.2)

pub fill-outside :
    (ram : ℕ → ℕ) (first n v i : ℕ) → (i < first) ⊎ (first + n ≤ i) → fill ram first n v i ≡ ram i
unfolding fill
fill-outside ram first zero v i h = refl
fill-outside ram first (suc n) v i h =
    update_ne (fill ram first n v) (first + n) i v (ground arith)
    ∙ fill-outside ram first n v i (ground arith)

pub fill-inside :
    (ram : ℕ → ℕ) (first n v i : ℕ) → first ≤ i → i < first + n → fill ram first n v i ≡ v
unfolding fill
fill-inside ram first zero v i le lt = absurd (omega arith)
fill-inside ram first (suc n) v i le lt = elim (Bool-cases (first + n == i)) [
  | inl last ↦ rw (update_lem (fill ram first n v) (first + n) i v, last) refl
  | inr before ↦
      rw (update_lem (fill ram first n v) (first + n) i v, before)
        (fill-inside ram first n v i le (ground arith))
]

-- Filling a page leaves the words of every other page alone.
pub fill_page-ne :
    (ram : ℕ → ℕ) (p c i : ℕ)
    → p % page_size ≡ 0
    → i / 512 ≢ p / page_size
    → fill_page ram p c i ≡ ram i
unfolding fill_page
fill_page-ne ram p c i a ne = fill-outside ram (p / 8) 512 _ i (ground arith)
