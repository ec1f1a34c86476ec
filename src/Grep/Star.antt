-- ===== src/Grep/Star.antt =====
-- `matchstar`: any number of characters, then the rest.
use risc_v_operating_system.Base.{
  ℕ, ◌≡◌, refl, sym, ap, ◌∙◌, ◌↔◌, ◌⊎◌, inl, inr, Bool, true, false, ◌&&◌, ◌||◌, List, [], ◌∷◌,
  ◌++◌, arith,
}
use risc_v_operating_system.Grep.{is_end, after, matchstar}
use risc_v_operating_system.Grep.Language.{stands_for, all_stand, Split}

-- a run of characters for `c`, then what `rest` accepts
abbrev pub StarThen : (c : ℕ) → (rest : List ℕ → Bool) → List ℕ → Type 0
StarThen c rest text = Split (λ u v. (all_stand c u ≡ true) × (rest v ≡ true)) text

abbrev pub first_of : List ℕ → ℕ
first_of [] = 0
first_of (t ∷ text) = t

pub and_left : (a b : Bool) → (a && b) ≡ true → a ≡ true
and_left true b h = refl
and_left false b h = h

pub and_right : (a b : Bool) → (a && b) ≡ true → b ≡ true
and_right true b h = h
and_right false b h = ground arith

pub and_both : (a b : Bool) → a ≡ true → b ≡ true → (a && b) ≡ true
and_both a b h h' = rw (h, h') refl

pub or_cases : (a b : Bool) → (a || b) ≡ true → (a ≡ true) ⊎ (b ≡ true)
or_cases true b h = inl refl
or_cases false b h = inr h

pub or_left : (a b : Bool) → a ≡ true → (a || b) ≡ true
or_left true b h = refl
or_left false b h = ground arith

pub or_right : (a b : Bool) → b ≡ true → (a || b) ≡ true
or_right true b h = refl
or_right false b h = h

star-none : (c : ℕ) (rest : List ℕ → Bool) (text : List ℕ) → rest text ≡ true → StarThen c rest text
star-none c rest text h = record { front = []; back = text; whole = refl; holds = (refl, h) }

star_one :
    (c t : ℕ) (rest : List ℕ → Bool) (text : List ℕ)
    → stands_for c t ≡ true
    → StarThen c rest text
    → StarThen c rest (t ∷ text)
star_one c t rest text h s = record {
  front = t ∷ s.front;
  back = s.back;
  whole = ap (λ x. t ∷ x) s.whole;
  holds = (rw h s.holds.0, s.holds.1);
}

-- A split of a text starts with nothing or with the text's first character.
star_first :
    (c t : ℕ) (rest : List ℕ → Bool) (text : List ℕ)
    → (s : StarThen c rest (t ∷ text))
    → (rest (t ∷ text) ≡ true) ⊎ ((stands_for c t ≡ true) × StarThen c rest text)
star_first c t rest text s = by_front s.front refl
  where
    by_front :
        (u : List ℕ)
        → s.front ≡ u
        → (rest (t ∷ text) ≡ true) ⊎ ((stands_for c t ≡ true) × StarThen c rest text)
    by_front [] e = inl (ap rest (s.whole ∙ ap (λ x. x ++ s.back) e) ∙ s.holds.1)
    by_front (t' ∷ u) e =
        let whole : t ∷ text ≡ t' ∷ (u ++ s.back) = s.whole ∙ ap (λ x. x ++ s.back) e in
        let stands : all_stand c (t' ∷ u) ≡ true = ap (all_stand c) (sym e) ∙ s.holds.0 in
        let same : t ≡ t' = ap first_of whole in
        let here : stands_for c t ≡ true = ap (stands_for c) same ∙ and_left _ _ stands in
        inr (
          here,
          record {
            front = u;
            back = s.back;
            whole = ap after whole;
            holds = (and_right _ _ stands, s.holds.1);
          },
        )

-- so does one of the empty text
star_end : (c : ℕ) (rest : List ℕ → Bool) → StarThen c rest [] → rest [] ≡ true
star_end c rest s = by_front s.front refl
  where
    by_front : (u : List ℕ) → s.front ≡ u → rest [] ≡ true
    by_front [] e = ap rest (s.whole ∙ ap (λ x. x ++ s.back) e) ∙ s.holds.1
    by_front (t ∷ u) e =
        let whole : [] ≡ t ∷ (u ++ s.back) = s.whole ∙ ap (λ x. x ++ s.back) e in
        let clash = ap is_end whole in absurd (ground arith)

pub matchstar_iff :
    (rest : List ℕ → Bool) (c : ℕ) (text : List ℕ)
    → (matchstar rest c text ≡ true) ↔ StarThen c rest text
unfolding matchstar
matchstar_iff rest c [] = (λ h. star-none c rest [] h, λ s. star_end c rest s)
matchstar_iff rest c (t ∷ text) = (
  λ h. elim (or_cases _ _ h) [
    | inl now ↦ star-none c rest (t ∷ text) now
    | inr more ↦
        star_one c t rest text (and_left _ _ more)
          ((matchstar_iff rest c text).0 (and_right _ _ more))
  ],
  λ s. elim (star_first c t rest text s) [
    | inl now ↦ or_left _ _ now
    | inr more ↦
        or_right (rest (t ∷ text)) _ (and_both _ _ more.0 ((matchstar_iff rest c text).1 more.1))
  ],
)
