-- ===== src/Life/Reparent.antt =====
-- `reparent`: the children of a process that ends.
use risc_v_operating_system.Base.{
  ℕ, zero, suc, ◌≡◌, refl, sym, ap, ◌∙◌, ◌⊎◌, inl, inr, true, false, ◌&&◌, not, Option, some, arith,
  ltb, ◌==◌, if◌then◌else◌, Bool-cases, update, update_self, update_ne,
}
use risc_v_operating_system.Proc.{runnable, is_sleeping}
use risc_v_operating_system.Life.{
  nproc, Task, ProcTable, set_task, is_self, woken, is_child_of, reparent_loop,
}
use risc_v_operating_system.Life.Wake.{awake, wakeup_lem}

-- The process at most was woken from its sleep, or got another parent: all other fields are as they
-- were.
pub record Stirred (p p' : Task) : Type 0 where
  pub rest : p' ≡ record p { state = p'.state; parent = p'.parent }
  pub woke : (p'.state ≡ p.state) ⊎ ((is_sleeping p.state ≡ true) × (p'.state ≡ runnable))

pub Stirred-refl : (p : Task) → Stirred p p
Stirred-refl p = record { rest = refl; woke = inl refl }

pub Stirred-trans : {p q r : Task} → Stirred p q → Stirred q r → Stirred p r
Stirred-trans {p} {q} {r} a b = record {
  rest = b.rest ∙ ap (λ (x : Task). record x { state = r.state; parent = r.parent }) a.rest;
  woke = then_woke a.woke b.woke;
}
  where
    then_woke :
        (q.state ≡ p.state) ⊎ ((is_sleeping p.state ≡ true) × (q.state ≡ runnable))
        → (r.state ≡ q.state) ⊎ ((is_sleeping q.state ≡ true) × (r.state ≡ runnable))
        → (r.state ≡ p.state) ⊎ ((is_sleeping p.state ≡ true) × (r.state ≡ runnable))
    then_woke (inl same) (inl still) = inl (still ∙ same)
    then_woke (inl same) (inr w) = inr (ap is_sleeping (sym same) ∙ w.0, w.1)
    then_woke (inr w) (inl still) = inr (w.0, still ∙ w.1)
    then_woke (inr w) (inr v) =
        let clash : false ≡ true = ap is_sleeping (sym w.1) ∙ v.0 in absurd (cc)

woken-Stirred :
    (chan : ℕ) (p : Task) → Stirred p (woken chan p) × ((woken chan p).parent ≡ p.parent)
woken-Stirred chan p = elim (Bool-cases (is_sleeping p.state && p.chan == chan)) [
  | inl asleep ↦ rw asleep (record { rest = refl; woke = inr (ground arith, refl) }, refl)
  | inr other ↦ rw other (Stirred-refl p, refl)
]

pub awake-Stirred :
    (n : ℕ) (self : Option ℕ) (chan i : ℕ) (p : Task)
    → Stirred p (awake n self chan i p) × ((awake n self chan i p).parent ≡ p.parent)
awake-Stirred n self chan i p = elim (Bool-cases (not (is_self self i) && ltb i n)) [
  | inl in_reach ↦ rw in_reach (woken-Stirred chan p)
  | inr out ↦ rw out (Stirred-refl p, refl)
]

-- who the parents are once the children of `p` in the first `n` slots were given away
abbrev pub new_parent : (n p init : ℕ) → (i : ℕ) → Task → Option ℕ
new_parent n p init i pp = if is_child_of p pp && ltb i n then some init else pp.parent

new_parent_last : (n p init : ℕ) (pp : Task) → new_parent n p init n pp ≡ pp.parent
new_parent_last n p init pp =
    let out : (is_child_of p pp && ltb n n) ≡ false = ground arith in rw out refl

-- the next slot holds no child, or holds one
new_parent_other :
    (n p init : ℕ) (f : ℕ → Task) (i : ℕ)
    → is_child_of p (f n) ≡ false
    → new_parent n p init i (f i) ≡ new_parent (suc n) p init i (f i)
new_parent_other n p init f i no_child = elim (Bool-cases (i == n)) [
  | inl e ↦
      let same : i ≡ n = ground arith in
      let here : is_child_of p (f i) ≡ false = ap (λ x. is_child_of p (f x)) same ∙ no_child in
      rw here refl
  | inr ne ↦ let lt : ltb i n ≡ ltb i (suc n) = ground arith in rw lt refl
]

abbrev give : (g : ℕ → Task) → (n : ℕ) → Option ℕ → ℕ → Task
give g n q = update g n (record (g n) { parent = q })

given-Stirred : (g : ℕ → Task) (n i : ℕ) (q : Option ℕ) → Stirred (g i) (give g n q i)
given-Stirred g n i q = elim (Bool-cases (n == i)) [
  | inl e ↦
      let same : n ≡ i = ground arith in
      rw (same, update_self g i (record (g i) { parent = q }))
        (record { rest = refl; woke = inl refl })
  | inr ne ↦ rw (update_ne g n i (record (g n) { parent = q }) (ground arith)) (Stirred-refl (g i))
]

given_state : (g : ℕ → Task) (n i : ℕ) (q : Option ℕ) → (give g n q i).state ≡ (g i).state
given_state g n i q = elim (Bool-cases (n == i)) [
  | inl e ↦
      let same : n ≡ i = ground arith in
      rw (same, update_self g i (record (g i) { parent = q })) refl
  | inr ne ↦ rw (update_ne g n i (record (g n) { parent = q }) (ground arith)) refl
]

given_parent :
    (n p init : ℕ) (f g : ℕ → Task) (init' : ℕ)
    → init' ≡ init
    → ((i : ℕ) → (g i).parent ≡ new_parent n p init i (f i))
    → (i : ℕ) → is_child_of p (f n) ≡ true
    → (give g n (some init') i).parent ≡ new_parent (suc n) p init i (f i)
given_parent n p init f g init' same_init parents i child = elim (Bool-cases (n == i)) [
  | inl e ↦
      let same : n ≡ i = ground arith in
      let here : is_child_of p (f i) ≡ true = ap (λ x. is_child_of p (f x)) (sym same) ∙ child in
      let in_ : ltb i (suc i) ≡ true = ground arith in
      rw (same, update_self g i (record (g i) { parent = some init' }), here, in_)
        (ap some same_init)
  | inr ne ↦
      let lt : ltb i n ≡ ltb i (suc n) = ground arith in
      ap (λ x. x.parent) (update_ne g n i (record (g n) { parent = some init' }) (ground arith))
      ∙ parents i
      ∙ rw lt refl
]

-- what `reparent` leaves
pub record Reparented (n p : ℕ) (t t' : ProcTable) : Type 0 where
  pub initproc : t'.initproc ≡ t.initproc
  pub parents : (i : ℕ) → (t'.task i).parent ≡ new_parent n p t.initproc i (t.task i)
  pub stirred : (i : ℕ) → Stirred (t.task i) (t'.task i)
  pub nextpid : t'.nextpid ≡ t.nextpid
  pub mem : t'.mem ≡ t.mem

module _ (kernel_end : ℕ) (address : ℕ → ℕ) where
  pub reparent_loop-Reparented :
      (n p : ℕ) (t : ProcTable) → Reparented n p t (reparent_loop kernel_end address n p t)
  unfolding reparent_loop
  reparent_loop-Reparented zero p t = record {
    initproc = refl;
    parents = λ i.
        let none_yet : (is_child_of p (t.task i) && ltb i 0) ≡ false = ground arith in
        rw none_yet refl;
    stirred = λ i. Stirred-refl (t.task i);
    nextpid = refl;
    mem = refl;
  }
  reparent_loop-Reparented (suc n) p t =
      let b = reparent_loop-Reparented n p t in
      let before = reparent_loop kernel_end address n p t in
      let old : (before.task n).parent ≡ (t.task n).parent =
        b.parents n ∙ new_parent_last n p t.initproc (t.task n) in
      let same_test : is_child_of p (before.task n) ≡ is_child_of p (t.task n) =
        ap (λ x. is_self x p) old in
      elim (Bool-cases (is_child_of p (before.task n))) [
        | inr no_child ↦ rw no_child (record {
          initproc = b.initproc;
          parents = λ i.
              b.parents i ∙ new_parent_other n p t.initproc t.task i (sym same_test ∙ no_child);
          stirred = b.stirred;
          nextpid = b.nextpid;
          mem = b.mem;
        })
        | inl child ↦
            let given =
              set_task n (record (before.task n) { parent = some before.initproc }) before in
            rw (child, wakeup_lem (some p) (address before.initproc) given)
              (record {
                initproc = b.initproc;
                parents = λ i.
                    (awake-Stirred nproc (some p) (address before.initproc) i (given.task i)).1
                    ∙ given_parent n p t.initproc t.task before.task before.initproc b.initproc
                        b.parents i (sym same_test ∙ child);
                stirred = λ i.
                    Stirred-trans
                      (Stirred-trans (b.stirred i)
                        (given-Stirred before.task n i (some before.initproc)))
                      (awake-Stirred nproc (some p) (address before.initproc) i (given.task i)).0;
                nextpid = b.nextpid;
                mem = b.mem;
              })
      ]
