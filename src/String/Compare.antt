-- ===== src/String/Compare.antt =====
-- `memcmp` and `strncmp`: when they return 0.
use risc_v_operating_system.Base.{
  ℕ, zero, suc, ◌+◌, ◌<◌, ◌≡◌, refl, ◌≢◌, ◌↔◌, ◌⊎◌, inl, inr, ◌&&◌, not, arith, ◌==◌, Bool-cases,
}
use risc_v_operating_system.String.{Memory, memcmp, strncmp, byte_difference}

-- the first `n` bytes from `p` and from `q` on agree
abbrev pub Agree : (p q n : ℕ) → Memory → Type 0
Agree p q zero m = Unit {0}
Agree p q (suc n) m = (m p ≡ m q) × Agree (p + 1) (q + 1) n m

-- they agree up to and including a 0, or all of them do
abbrev pub AgreeToNul : (p q n : ℕ) → Memory → Type 0
AgreeToNul p q zero m = Unit {0}
AgreeToNul p q (suc n) m = (m p ≡ m q) × ((m p ≡ 0) ⊎ AgreeToNul (p + 1) (q + 1) n m)

difference-ne_zero : (x y : ℕ) → x < 256 → y < 256 → x ≢ y → byte_difference x y ≢ 0
difference-ne_zero x y h k ne e = omega arith

-- In a memory of bytes, `memcmp` returns 0 exactly where the `n` bytes are the same.
pub memcmp-zero_iff :
    (p q n : ℕ) (m : Memory) → ((a : ℕ) → m a < 256) → (memcmp p q n m ≡ 0) ↔ Agree p q n m
unfolding memcmp
memcmp-zero_iff p q zero m bytes = (λ e. tt, λ a. refl)
memcmp-zero_iff p q (suc n) m bytes = elim (Bool-cases (m p == m q)) [
  | inl e ↦
      let same : m p ≡ m q = ground arith in
      let rest = memcmp-zero_iff (p + 1) (q + 1) n m bytes in
      rw e (λ z. (same, rest.0 z), λ a. rest.1 a.1)
  | inr e ↦
      let differ : m p ≢ m q = ground arith in
      rw e (
        λ z. absurd (difference-ne_zero (m p) (m q) (bytes p) (bytes q) differ z),
        λ a. absurd (differ a.0),
      )
]

-- In a memory of bytes, `strncmp` returns 0 exactly where the two strings agree up to a 0 or up to
-- `n` bytes.
pub strncmp-zero_iff :
    (p q n : ℕ) (m : Memory) → ((a : ℕ) → m a < 256) → (strncmp p q n m ≡ 0) ↔ AgreeToNul p q n m
unfolding strncmp
strncmp-zero_iff p q zero m bytes = (λ e. tt, λ a. refl)
strncmp-zero_iff p q (suc n) m bytes = elim (Bool-cases (not (m p == 0) && m p == m q)) [
  | inl e ↦
      let same : m p ≡ m q = ground arith in
      let rest = strncmp-zero_iff (p + 1) (q + 1) n m bytes in
      rw e (
        λ z. (same, inr (rest.0 z)),
        λ a. elim a.1 [ inl nul ↦ absurd (ground arith) | inr more ↦ rest.1 more ],
      )
  | inr e ↦ rw e (
    λ z. let same : m p ≡ m q = omega (arith, bytes p, bytes q) in (same, inl (ground arith)),
    λ a. let same : m p ≡ m q = a.0 in omega arith,
  )
]
