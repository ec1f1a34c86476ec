-- ===== src/String/Strings.antt =====
-- `safestrcpy` and `strlen`.
use risc_v_operating_system.Base.{
  ℕ, zero, suc, ◌+◌, ◌-◌, ◌≤◌, ◌<◌, ◌≡◌, refl, ◌∙◌, ◌≢◌, ◌⊎◌, inl, inr, true, false, ◌||◌, some,
  arith, ◌==◌, if◌then◌else◌, Bool-cases, update, update_self, update_ne,
}
use risc_v_operating_system.Base.Word.{is_negative}
use risc_v_operating_system.String.{Memory, safe_loop, safestrcpy, length_loop, strlen}

-- The bytes from `s` on are a string of `k` bytes and a 0, the copy of `t`'s first bytes in `m`.
pub record IsCopy (s t k : ℕ) (m m' : Memory) : Type 0 where
  pub ends : m' (s + k) ≡ 0
  pub copied : (i : ℕ) → i < k → (m' (s + i) ≡ m (t + i)) × (m (t + i) ≢ 0)

-- no change but in the `n` bytes from `s` on
abbrev pub OnlyIn : (s n : ℕ) (m m' : Memory) → Type 0
OnlyIn s n m m' = (a : ℕ) → (a < s) ⊎ (s + n ≤ a) → m' a ≡ m a

safe_loop-OnlyIn : (n s t : ℕ) (m : Memory) → OnlyIn s (suc n) m (safe_loop n s t m)
unfolding safe_loop
safe_loop-OnlyIn zero s t m a h = update_ne m s a 0 (ground arith)
safe_loop-OnlyIn (suc n) s t m a h =
    let first : update m s (m t) a ≡ m a = update_ne m s a (m t) (ground arith) in
    elim (Bool-cases (update m s (m t) s == 0)) [
      | inl nul ↦ rw nul (update_ne (update m s (m t)) (s + 1) a 0 (ground arith) ∙ first)
      | inr more ↦
          rw more (safe_loop-OnlyIn n (s + 1) (t + 1) (update m s (m t)) a (ground arith) ∙ first)
    ]

-- The length of the copy: up to the source's 0, and at most `n`.
abbrev pub copy_length : (n t : ℕ) → Memory → ℕ
copy_length zero t m = 0
copy_length (suc n) t m = if m t == 0 then 0 else suc (copy_length n (t + 1) m)

-- one byte more, in front
IsCopy-cons :
    (s t k : ℕ) (m m' : Memory)
    → m' s ≡ m t
    → m t ≢ 0
    → IsCopy (s + 1) (t + 1) k m m'
    → IsCopy s t (suc k) m m'
IsCopy-cons s t k m m' first nonzero c = record {
  ends = let at : s + suc k ≡ s + 1 + k = omega arith in rw at c.ends;
  copied = each;
}
  where
    each : (i : ℕ) → i < suc k → (m' (s + i) ≡ m (t + i)) × (m (t + i) ≢ 0)
    each zero h =
        let s0 : s + 0 ≡ s = omega arith in
        let t0 : t + 0 ≡ t = omega arith in rw (s0, t0) (first, nonzero)
    each (suc i) h =
        let si : s + suc i ≡ s + 1 + i = omega arith in
        let ti : t + suc i ≡ t + 1 + i = omega arith in rw (si, ti) (c.copied i (omega arith))

safe_loop-IsCopy :
    (n s t : ℕ) (old m : Memory)
    → (t + suc n ≤ s) ⊎ (s + suc n ≤ t)
    → ((i : ℕ) → t ≤ i → i < t + n → m i ≡ old i)
    → IsCopy s t (copy_length n t old) old (safe_loop n s t m)
unfolding safe_loop
safe_loop-IsCopy zero s t old m apart same = record {
  ends = let s0 : s + 0 ≡ s = omega arith in rw s0 (update_self m s 0);
  copied = λ i h. absurd (omega arith);
}
safe_loop-IsCopy (suc n) s t old m apart same =
    let src : m t ≡ old t = same t (omega arith) (omega arith) in
    let stored : update m s (m t) s ≡ m t = update_self m s (m t) in
    elim (Bool-cases (old t == 0)) [
      | inl nul ↦
          let stop : (update m s (m t) s == 0) ≡ true = ground (arith, stored, src) in
          rw (nul, stop)
            (record {
              ends =
                  let s0 : s + 0 ≡ s = omega arith in
                  rw s0 (
                    update_ne (update m s (m t)) (s + 1) s 0 (omega arith)
                    ∙ ground (arith, stored, src));
              copied = λ i h. absurd (omega arith);
            })
      | inr more ↦
          let go : (update m s (m t) s == 0) ≡ false = ground (arith, stored, src) in
          let rest =
            safe_loop-IsCopy n (s + 1) (t + 1) old (update m s (m t)) (ground arith) (λ i le lt.
              update_ne m s i (m t) (ground arith) ∙ same i (omega arith) (omega arith)) in
          rw (more, go)
            (IsCopy-cons s t (copy_length n (t + 1) old) old _
              (safe_loop-OnlyIn n (s + 1) (t + 1) (update m s (m t)) s (inl (omega arith))
                ∙ stored
                ∙ src)
              (ground arith) rest)
    ]

pub copy_length-le : (n t : ℕ) (m : Memory) → copy_length n t m ≤ n
copy_length-le zero t m = omega arith
copy_length-le (suc n) t m = let rest = copy_length-le n (t + 1) m in ground (arith, rest)

-- For a positive `n` and two ranges of `n` bytes apart, `safestrcpy` leaves at `s` a string of fewer
-- than `n` bytes with its 0, the copy of `t`'s bytes up to a 0, and changes nothing but the `n`
-- bytes from `s` on.
pub safestrcpy-IsCopy :
    (s t n : ℕ) (m : Memory)
    → is_negative n ≡ false
    → n ≢ 0
    → (t + n ≤ s) ⊎ (s + n ≤ t)
    → IsCopy s t (copy_length (n - 1) t m) m (safestrcpy s t n m)
      × (copy_length (n - 1) t m < n)
      × OnlyIn s n m (safestrcpy s t n m)
unfolding safestrcpy
safestrcpy-IsCopy s t zero m positive more apart = absurd (more refl)
safestrcpy-IsCopy s t (suc n) m positive more apart =
    let go : (is_negative (suc n) || suc n == 0) ≡ false = ground arith in
    let n1 : suc n - 1 ≡ n = omega arith in
    let short = copy_length-le n t m in
    rw (go, n1)
      (
        safe_loop-IsCopy n s t m m apart (λ i le lt. refl),
        omega (arith, short),
        safe_loop-OnlyIn n s t m,
      )

length_loop_lem :
    (fuel s n k : ℕ) (m : Memory)
    → m (s + k) ≡ 0
    → ((i : ℕ) → i < k → m (s + i) ≢ 0)
    → n ≤ k
    → k < n + fuel
    → length_loop fuel s n m ≡ some k
unfolding length_loop
length_loop_lem zero s n k m nul others le lt = absurd (omega arith)
length_loop_lem (suc fuel) s n k m nul others le lt = elim (Bool-cases (n == k)) [
  | inl e ↦
      let same : n ≡ k = ground arith in
      let stop : (m (s + k) == 0) ≡ true = ground (arith, nul) in rw same (rw stop refl)
  | inr e ↦
      let nonzero = others n (ground arith) in
      let go : (m (s + n) == 0) ≡ false = ground (arith, nonzero) in
      rw go (length_loop_lem fuel s (n + 1) k m nul others (ground arith) (omega arith))
]

-- Where the first 0 from `s` on stands `k` bytes away, `strlen` ends and returns `k`.
pub strlen_lem :
    (fuel s k : ℕ) (m : Memory)
    → m (s + k) ≡ 0
    → ((i : ℕ) → i < k → m (s + i) ≢ 0)
    → k < fuel
    → strlen fuel s m ≡ some k
unfolding strlen
strlen_lem fuel s k m nul others lt =
    length_loop_lem fuel s 0 k m nul others (omega arith) (omega arith)
