-- ===== src/Spinlock/Steps.antt =====
-- Every step of a CPU keeps the exclusion.
use risc_v_operating_system.Base.{
  ℕ, ◌≡◌, refl, sym, ap, ◌∙◌, ◌≢◌, inl, inr, true, false, ◌||◌, arith, ◌==◌, Bool-cases, Safely,
  safely,
}
use risc_v_operating_system.Base.Word.{is_negative}
use risc_v_operating_system.Spinlock.{
  Phase, outside, spinning, taken, held, leaving, Cpu, mycpu, push_off, pop_off, holding, State,
  put_cpu, advance,
}
use risc_v_operating_system.Spinlock.Exclusion.{
  is_inside, is_held, depth_fits, Good, Excluded, update-Good, held-inside, Excluded-holding,
  phase-cases,
}

-- what is known of a CPU in phase `p`
Good-phase :
    (owner cpu i : ℕ) (c : Cpu) (p : Phase)
    → Good owner cpu i c
    → c.phase ≡ p
    → (is_inside p ≡ (owner == mycpu i))
      × ((cpu == mycpu i) ≡ is_held p)
      × (depth_fits p c.noff ≡ true)
Good-phase owner cpu i c p g e = rw (sym e) (g.inside, g.named, g.depth)

-- A CPU that is not the owner is not in its critical section.
not_owner :
    (owner cpu j : ℕ) (c : Cpu)
    → Good owner cpu j c
    → owner ≢ mycpu j
    → (is_inside c.phase ≡ false) × (is_held c.phase ≡ false)
not_owner owner cpu j c g ne =
    let out : is_inside c.phase ≡ false = ground (arith, g.inside) in (out, held-inside c.phase out)

outside-Excluded :
    (i : ℕ) (s : State) → Excluded s → (s.cpus i).phase ≡ outside → Safely Excluded (advance i s)
unfolding advance push_off
outside-Excluded i s x e =
    let f = Good-phase x.owner s.lock.cpu i (s.cpus i) outside (x.all i) e in
    let free : holding i s.lock ≡ false = Excluded-holding s i x ∙ ap is_held e in
    rw (e, advance)
      (rw free (
        safely (record {
          owner = x.owner;
          locked_lem = x.locked_lem;
          all =
              update-Good x.owner s.lock.cpu x.owner s.lock.cpu i s.cpus _ x.all
                (record { inside = f.0; named = f.1; depth = ground (arith, f.2); off = λ h. refl })
                (λ j ne g. g);
        })))

spinning-Excluded :
    (i : ℕ) (s : State) → Excluded s → (s.cpus i).phase ≡ spinning → Safely Excluded (advance i s)
unfolding advance
spinning-Excluded i s x e =
    let f = Good-phase x.owner s.lock.cpu i (s.cpus i) spinning (x.all i) e in
    rw (e, advance)
      (elim (Bool-cases (s.lock.locked == 0)) [
        | inl free ↦
            let none_in : x.owner ≡ 0 = ground (arith, x.locked_lem) in
            rw free (
              safely (record {
                owner = mycpu i;
                locked_lem = ground arith;
                all =
                    update-Good x.owner s.lock.cpu (mycpu i) s.lock.cpu i s.cpus _ x.all
                      (record {
                        inside = ground arith;
                        named = f.1;
                        depth = f.2;
                        off = (x.all i).off;
                      })
                      (λ j ne g. record {
                        inside =
                            ground (
                              arith,
                              (not_owner x.owner s.lock.cpu j (s.cpus j) g (omega arith)).0,
                            );
                        named = g.named;
                        depth = g.depth;
                        off = g.off;
                      });
              }))
        | inr busy ↦ rw busy (
            safely (record {
              owner = x.owner;
              locked_lem = ground (arith, x.locked_lem);
              all =
                  update-Good x.owner s.lock.cpu x.owner s.lock.cpu i s.cpus _ x.all
                    (record { inside = f.0; named = f.1; depth = f.2; off = (x.all i).off })
                    (λ j ne g. g);
            }))
      ])

-- the owner writes `lk->cpu`
naming-Excluded :
    (i cpu : ℕ) (s : State) (x : Excluded s) (p : Phase)
    → x.owner ≡ mycpu i
    → is_inside p ≡ true
    → depth_fits p (s.cpus i).noff ≡ true
    → (cpu == mycpu i) ≡ is_held p
    → ((j : ℕ) → i ≢ j → (cpu == mycpu j) ≡ false)
    → Excluded (put_cpu i s (record s.lock { cpu = cpu }) (record (s.cpus i) { phase = p }))
naming-Excluded i cpu s x p mine p_in deep named others = record {
  owner = x.owner;
  locked_lem = x.locked_lem;
  all =
      update-Good x.owner s.lock.cpu x.owner cpu i s.cpus _ x.all
        (record { inside = ground (arith, p_in); named = named; depth = deep; off = (x.all i).off })
        (λ j ne g. record {
          inside = g.inside;
          named = others j ne ∙ sym (not_owner x.owner s.lock.cpu j (s.cpus j) g (omega arith)).1;
          depth = g.depth;
          off = g.off;
        });
}

taken-Excluded :
    (i : ℕ) (s : State) → Excluded s → (s.cpus i).phase ≡ taken → Safely Excluded (advance i s)
unfolding advance
taken-Excluded i s x e =
    let f = Good-phase x.owner s.lock.cpu i (s.cpus i) taken (x.all i) e in
    rw (e, advance)
      (safely (
        naming-Excluded i (mycpu i) s x held (ground (arith, f.0)) refl f.2 (ground arith)
          (λ j ne. ground arith)))

held-Excluded :
    (i : ℕ) (s : State) → Excluded s → (s.cpus i).phase ≡ held → Safely Excluded (advance i s)
unfolding advance
held-Excluded i s x e =
    let f = Good-phase x.owner s.lock.cpu i (s.cpus i) held (x.all i) e in
    let mine : holding i s.lock ≡ true = Excluded-holding s i x ∙ ap is_held e in
    rw (e, advance)
      (rw mine (
        safely (
          naming-Excluded i 0 s x leaving (ground (arith, f.0)) refl f.2 (ground arith)
            (λ j ne. ground arith))))

leaving-Excluded :
    (i : ℕ) (s : State) → Excluded s → (s.cpus i).phase ≡ leaving → Safely Excluded (advance i s)
unfolding advance pop_off
leaving-Excluded i s x e =
    let f = Good-phase x.owner s.lock.cpu i (s.cpus i) leaving (x.all i) e in
    let quiet : (s.cpus i).interrupts ≡ false = (x.all i).off (ground (arith, f.2)) in
    let deep : (is_negative (s.cpus i).noff || (s.cpus i).noff == 0) ≡ false =
      ground (arith, f.2) in
    rw (e, advance)
      (rw (quiet, deep)
        (safely (record {
          owner = 0;
          locked_lem = refl;
          all =
              update-Good x.owner s.lock.cpu 0 s.lock.cpu i s.cpus _ x.all
                (record {
                  inside = ground arith;
                  named = f.1;
                  depth = ground (arith, f.2);
                  off = λ h. ground arith;
                })
                (λ j ne g. record {
                  inside = ground (
                    arith,
                    (not_owner x.owner s.lock.cpu j (s.cpus j) g (ground (arith, f.0))).0,
                  );
                  named = g.named;
                  depth = g.depth;
                  off = g.off;
                });
        })))

-- A step of any CPU, wherever it is, does not panic, and keeps the exclusion.
pub advance-Excluded : (i : ℕ) (s : State) → Excluded s → Safely Excluded (advance i s)
advance-Excluded i s x = elim (phase-cases (s.cpus i).phase) [
  | inl e ↦ outside-Excluded i s x e
  | inr (inl e) ↦ spinning-Excluded i s x e
  | inr (inr (inl e)) ↦ taken-Excluded i s x e
  | inr (inr (inr (inl e))) ↦ held-Excluded i s x e
  | inr (inr (inr (inr e))) ↦ leaving-Excluded i s x e
]
