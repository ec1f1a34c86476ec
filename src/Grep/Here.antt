-- ===== src/Grep/Here.antt =====
-- `matchhere` and `match`, and what a pattern means.
use risc_v_operating_system.Base.{
  ℕ, ◌≡◌, refl, sym, ap, ◌∙◌, ◌↔◌, inl, inr, Bool, true, ◌&&◌, ◌||◌, List, [], ◌∷◌, ◌++◌, arith,
  ◌==◌, Bool-cases, length,
}
use risc_v_operating_system.Grep.{
  caret, star, dollar, is_end, after, accepts, matchstar, matchhere, match_loop, match,
}
use risc_v_operating_system.Grep.Language.{
  Item, one, many, at_end, items, stands_for, all_stand, Split, Starts, Occurs,
}
use risc_v_operating_system.Grep.Star.{
  and_left, and_right, and_both, or_cases, or_left, or_right, first_of, matchstar_iff,
}

module _ (is : List Item) (rest : List ℕ → Bool)
    (rest_iff : (v : List ℕ) → (rest v ≡ true) ↔ Starts is v) where
  one_iff :
      (c : ℕ) (text : List ℕ)
      → ((accepts c text && rest (after text)) ≡ true) ↔ Starts (one c ∷ is) text
  one_iff c [] = (λ h. absurd (ground arith), λ s. no_front s.front s refl)
    where
      no_front :
          (u : List ℕ) (s : Starts (one c ∷ is) []) → s.front ≡ u → (accepts c [] && rest []) ≡ true
      no_front [] s e = let n = ap length e in absurd (omega (arith, n, s.holds.0))
      no_front (t ∷ u) s e =
          let whole : [] ≡ t ∷ (u ++ s.back) = s.whole ∙ ap (λ x. x ++ s.back) e in
          let clash = ap is_end whole in absurd (ground arith)
  one_iff c (t ∷ text) = (
    λ h. record {
      front = t ∷ [];
      back = text;
      whole = refl;
      holds = (refl, and_both _ _ (and_left _ _ h) refl, (rest_iff text).0 (and_right _ _ h));
    },
    λ s. first s.front s refl,
  )
    where
      first :
          (u : List ℕ) (s : Starts (one c ∷ is) (t ∷ text))
          → s.front ≡ u
          → (accepts c (t ∷ text) && rest text) ≡ true
      first [] s e = let n = ap length e in absurd (omega (arith, n, s.holds.0))
      first (t' ∷ []) s e =
          let whole : t ∷ text ≡ t' ∷ s.back = s.whole ∙ ap (λ x. x ++ s.back) e in
          let same : t ≡ t' = ap first_of whole in
          let stands : all_stand c (t' ∷ []) ≡ true = ap (all_stand c) (sym e) ∙ s.holds.1 in
          let here : stands_for c t ≡ true = ap (stands_for c) same ∙ and_left _ _ stands in
          let back : rest text ≡ true = ap rest (ap after whole) ∙ (rest_iff s.back).1 s.holds.2 in
          and_both _ _ here back
      first (t' ∷ t'' ∷ u) s e = let n = ap length e in absurd (omega (arith, n, s.holds.0))

  many_iff : (c : ℕ) (text : List ℕ) → (matchstar rest c text ≡ true) ↔ Starts (many c ∷ is) text
  many_iff c text = (
    λ h.
        let s = (matchstar_iff rest c text).0 h in
        record {
          front = s.front;
          back = s.back;
          whole = s.whole;
          holds = (s.holds.0, (rest_iff s.back).0 s.holds.1);
        },
    λ s. (matchstar_iff rest c text).1 (record {
      front = s.front;
      back = s.back;
      whole = s.whole;
      holds = (s.holds.0, (rest_iff s.back).1 s.holds.1);
    }),
  )

end_iff : (text : List ℕ) → (is_end text ≡ true) ↔ Starts (at_end ∷ []) text
end_iff [] = (λ h. (refl, tt), λ s. refl)
end_iff (t ∷ text) = (λ h. absurd (ground arith), λ s. ap is_end s.0)

-- `matchhere` returns 1 exactly for a text that starts with what the pattern stands for.
pub matchhere_iff : (re text : List ℕ) → (matchhere re text ≡ true) ↔ Starts (items re) text
unfolding matchhere items
matchhere_iff [] text = (λ h. tt, λ s. refl)
matchhere_iff (c ∷ []) text = elim (Bool-cases (c == dollar)) [
  | inl e ↦ rw e (end_iff text)
  | inr e ↦ rw e (one_iff [] (matchhere []) (matchhere_iff []) c text)
]
matchhere_iff (c ∷ d ∷ re) text = elim (Bool-cases (d == star)) [
  | inl e ↦ rw e (many_iff (items re) (matchhere re) (matchhere_iff re) c text)
  | inr e ↦ rw e (one_iff (items (d ∷ re)) (matchhere (d ∷ re)) (matchhere_iff (d ∷ re)) c text)
]

-- `match` without a `^` looks at each end of the text.
match_loop_iff :
    (re text : List ℕ) → (match_loop re text ≡ true) ↔ Split (λ u v. Starts (items re) v) text
unfolding match_loop
match_loop_iff re [] = (
  λ h. record { front = []; back = []; whole = refl; holds = (matchhere_iff re []).0 h },
  λ s. at_end_of s.front s refl,
)
  where
    at_end_of :
        (u : List ℕ) (s : Split (λ u v. Starts (items re) v) [])
        → s.front ≡ u
        → matchhere re [] ≡ true
    at_end_of [] s e =
        ap (matchhere re) (s.whole ∙ ap (λ x. x ++ s.back) e) ∙ (matchhere_iff re s.back).1 s.holds
    at_end_of (t ∷ u) s e =
        let whole : [] ≡ t ∷ (u ++ s.back) = s.whole ∙ ap (λ x. x ++ s.back) e in
        let clash = ap is_end whole in absurd (ground arith)
match_loop_iff re (t ∷ text) = (
  λ h. elim (or_cases _ _ h) [
    | inl now ↦ record {
      front = [];
      back = t ∷ text;
      whole = refl;
      holds = (matchhere_iff re (t ∷ text)).0 now;
    }
    | inr later ↦
        let s = (match_loop_iff re text).0 later in
        record {
          front = t ∷ s.front;
          back = s.back;
          whole = ap (λ x. t ∷ x) s.whole;
          holds = s.holds;
        }
  ],
  λ s. somewhere (match_loop_iff re text).1 s.front s refl,
)
  where
    somewhere :
        (later : Split (λ u v. Starts (items re) v) text → match_loop re text ≡ true) (u : List ℕ)
        (s : Split (λ u v. Starts (items re) v) (t ∷ text))
        → s.front ≡ u
        → (matchhere re (t ∷ text) || match_loop re text) ≡ true
    somewhere later [] s e = or_left _ _ (
        ap (matchhere re) (s.whole ∙ ap (λ x. x ++ s.back) e) ∙ (matchhere_iff re s.back).1 s.holds)
    somewhere later (t' ∷ u) s e =
        let whole : t ∷ text ≡ t' ∷ (u ++ s.back) = s.whole ∙ ap (λ x. x ++ s.back) e in
        or_right _ _
          (later (record { front = u; back = s.back; whole = ap after whole; holds = s.holds }))

-- `match` returns 1 exactly for a text in which the pattern occurs: after a `^` at its start, else
-- anywhere.
pub match_iff : (re text : List ℕ) → (match re text ≡ true) ↔ Occurs re text
unfolding match
match_iff [] text = match_loop_iff [] text
match_iff (c ∷ re) text = elim (Bool-cases (c == caret)) [
  | inl e ↦ rw e (matchhere_iff re text)
  | inr e ↦ rw e (match_loop_iff (c ∷ re) text)
]
