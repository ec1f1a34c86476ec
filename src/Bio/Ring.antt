-- ===== src/Bio/Ring.antt =====
-- The ring of buffers as a list.
use risc_v_operating_system.Base.{
  ℕ, ◌≤◌, ◌<◌, ◌≡◌, refl, ap, ◌∙◌, ◌≢◌, inl, inr, true, false, List, [], ◌∷◌, arith, ◌==◌,
  Bool-cases, occurrences, remove, occurrences-remove, update, update_self, update_ne, update_lem,
  update-update_lem,
}
use risc_v_operating_system.Bio.{Cache, head, link_front, unlink}

-- From `a` on, `next` goes through `bs` to `z`, and `prev` goes the same way back.
abbrev pub IsChain : (next prev : ℕ → ℕ) → (a : ℕ) → List ℕ → (z : ℕ) → Type 0
IsChain next prev a [] z = (next a ≡ z) × (prev z ≡ a)
IsChain next prev a (b ∷ bs) z = (next a ≡ b) × (prev b ≡ a) × IsChain next prev b bs z

-- No buffer stands twice in the list, and `head` does not stand in it.
pub record IsRing (c : Cache) (bs : List ℕ) : Type 0 where
  pub chain : IsChain c.next c.prev head bs head
  pub once : (b : ℕ) → occurrences b (head ∷ bs) ≤ 1

-- other links where the chain does not look
IsChain-frame :
    (next prev next' prev' : ℕ → ℕ) (a : ℕ) (bs : List ℕ) (z : ℕ)
    → ((b : ℕ) → 0 < occurrences b (a ∷ bs) → next' b ≡ next b)
    → ((b : ℕ) → 0 < occurrences b (z ∷ bs) → prev' b ≡ prev b)
    → IsChain next prev a bs z
    → IsChain next' prev' a bs z
IsChain-frame next prev next' prev' a [] z n p h =
    (n a (ground arith) ∙ h.0, p z (ground arith) ∙ h.1)
IsChain-frame next prev next' prev' a (b ∷ bs) z n p h = (
  n a (ground arith) ∙ h.0,
  p b (ground arith) ∙ h.1,
  IsChain-frame next prev next' prev' b bs z (λ x at. n x (ground arith))
      (λ x at. p x (ground arith)) h.2,
)

-- the neighbours of what is in a chain
neighbours :
    (next prev : ℕ → ℕ) (a : ℕ) (bs : List ℕ) (z b : ℕ)
    → IsChain next prev a bs z
    → 0 < occurrences b bs
    → (0 < occurrences (prev b) (a ∷ bs)) × (0 < occurrences (next b) (z ∷ bs))
neighbours next prev a [] z b h at = absurd (omega arith)
neighbours next prev a (x ∷ []) z b h at =
    let same : b ≡ x = ground arith in rw same (ground (arith, h.1), ground (arith, h.2))
neighbours next prev a (x ∷ y ∷ bs) z b h at = elim (Bool-cases (b == x)) [
  | inl e ↦ let same : b ≡ x = ground arith in rw same (ground (arith, h.1), ground (arith, h.2))
  | inr ne ↦ let more = neighbours next prev x (y ∷ bs) z b h.2 (ground arith) in ground arith
]

-- one out
unlink-IsChain :
    (next prev : ℕ → ℕ) (a : ℕ) (bs : List ℕ) (z b : ℕ)
    → IsChain next prev a bs z
    → ((x : ℕ) → occurrences x (a ∷ bs) ≤ 1)
    → occurrences z bs ≡ 0
    → 0 < occurrences b bs
    → IsChain (update next (prev b) (next b)) (update prev (next b) (prev b)) a (remove b bs) z
unfolding remove
unlink-IsChain next prev a [] z b h once out at = absurd (omega arith)
unlink-IsChain next prev a (x ∷ []) z b h once out at =
    let same : b ≡ x = ground arith in
    let test : (b == x) ≡ true = ground arith in
    let before : prev b ≡ a = ap prev same ∙ h.1 in
    let after : next b ≡ z = ap next same ∙ h.2.0 in
    rw test (
      ground (arith, update_lem next (prev b) a (next b)),
      ground (arith, update_lem prev (next b) z (prev b)),
    )
unlink-IsChain next prev a (x ∷ y ∷ bs) z b h once out at = elim (Bool-cases (b == x)) [
  | inl e ↦
      let same : b ≡ x = ground arith in
      let before : prev b ≡ a = ap prev same ∙ h.1 in
      let after : next b ≡ y = ap next same ∙ h.2.0 in
      rw e (
        ground (arith, update_lem next (prev b) a (next b)),
        ground (arith, update_lem prev (next b) y (prev b)),
        IsChain-frame next prev _ _ y bs z
            (λ c here. update_ne next (prev b) c (next b) (λ q. ground (arith, once c)))
            (λ c here. update_ne prev (next b) c (prev b) (λ q. ground (arith, once c))) h.2.2,
      )
  | inr ne ↦
      let near = neighbours next prev x (y ∷ bs) z b h.2 (ground arith) in
      let elsewhere : prev b ≢ a = λ q. ground (arith, once (prev b)) in
      let behind : next b ≢ x = λ q. ground (arith, once x) in
      rw ne (
        update_ne next (prev b) a (next b) elsewhere ∙ h.0,
        update_ne prev (next b) x (prev b) behind ∙ h.1,
        unlink-IsChain next prev x (y ∷ bs) z b h.2 (λ c. ground (arith, once c)) (ground arith)
            (ground arith),
      )
]

-- no buffer is its own neighbour
no_loop :
    (next prev : ℕ → ℕ) (a : ℕ) (bs : List ℕ) (z b : ℕ)
    → IsChain next prev a bs z
    → ((x : ℕ) → occurrences x (z ∷ bs) ≤ 1)
    → 0 < occurrences b bs
    → next b ≢ b
no_loop next prev a [] z b h once at loop = absurd (omega arith)
no_loop next prev a (x ∷ []) z b h once at loop =
    let same : b ≡ x = ground arith in
    let after : next b ≡ z = ap next same ∙ h.2.0 in ground (arith, once x)
no_loop next prev a (x ∷ y ∷ bs) z b h once at loop = elim (Bool-cases (b == x)) [
  | inl e ↦
      let same : b ≡ x = ground arith in
      let after : next b ≡ y = ap next same ∙ h.2.0 in ground (arith, once x)
  | inr ne ↦ no_loop next prev x (y ∷ bs) z b h.2 (λ c. ground (arith, once c)) (ground arith) loop
]

pub unlink-IsRing :
    (c : Cache) (bs : List ℕ) (b : ℕ)
    → IsRing c bs
    → 0 < occurrences b bs
    → IsRing (unlink b c) (remove b bs)
unfolding unlink
unlink-IsRing c bs b r at =
    let loop = no_loop c.next c.prev head bs head b r.chain r.once at in
    let same : update c.prev (c.next b) (c.prev b) b ≡ c.prev b =
      update_ne c.prev (c.next b) b (c.prev b) loop in
    record {
      chain =
          IsChain-frame _ _ _ _ head (remove b bs) head
            (λ x here. ap (λ p. update c.next p (c.next b) x) same) (λ x here. refl)
            (unlink-IsChain c.next c.prev head bs head b r.chain r.once
              (ground (arith, r.once head)) at);
      once = λ x. ground (arith, r.once x, occurrences-remove x b bs at);
    }

link_front-IsChain :
    (c : Cache) (bs : List ℕ) (b : ℕ)
    → IsRing c bs
    → occurrences b (head ∷ bs) ≡ 0
    → IsChain (link_front b c).next (link_front b c).prev head (b ∷ bs) head
unfolding link_front
link_front-IsChain c [] b r new =
    let first = r.chain.0 in
    (
      update_self _ head b,
      ground (arith, update-update_lem c.prev b (c.next head) head b b),
      (
        ground (arith, update-update_lem c.next b head (c.next head) b b),
        ground (arith, update-update_lem c.prev b (c.next head) head b head),
      ),
    )
link_front-IsChain c (x ∷ bs) b r new =
    let first = r.chain.0 in
    (
      update_self _ head b,
      ground (arith, update-update_lem c.prev b (c.next head) head b b),
      (
        ground (arith, update-update_lem c.next b head (c.next head) b b),
        ground (arith, update-update_lem c.prev b (c.next head) head b x),
        IsChain-frame c.next c.prev _ _ x bs head
            (λ y here.
              let apart : (head == y) ≡ false = ground (arith, r.once head) in
              ground (arith, update-update_lem c.next b head (c.next head) b y))
            (λ y here.
              let apart : (x == y) ≡ false = ground (arith, r.once x) in
              ground (arith, update-update_lem c.prev b (c.next head) head b y))
            r.chain.2,
      ),
    )

pub link_front-IsRing :
    (c : Cache) (bs : List ℕ) (b : ℕ)
    → IsRing c bs
    → occurrences b (head ∷ bs) ≡ 0
    → IsRing (link_front b c) (b ∷ bs)
unfolding link_front
link_front-IsRing c bs b r new = record {
  chain = link_front-IsChain c bs b r new;
  once = λ x. ground (arith, r.once x);
}
