-- ===== src/Vm/Uvmalloc.antt =====
-- `uvmalloc`, from a round of its loop on.
use mathlib.Core.Path.{subst}
use risc_v_operating_system.Base.{
  ℕ, zero, suc, ◌+◌, ◌*◌, ◌/◌, ◌%◌, ◌≤◌, ◌<◌, ◌≡◌, refl, ap, ◌∙◌, ◌⊎◌, inl, inr, Bool, true, false,
  List, ◌∷◌, arith, ltb, ◌==◌, Bool-cases, occurrences, Safely, safely, Safely-bind,
}
use risc_v_operating_system.Base.Word.{u64}
use risc_v_operating_system.Kalloc.{Kmem, page_size, page_round_up, fill_page, kalloc}
use risc_v_operating_system.Kalloc.Own.{kalloc-new}
use risc_v_operating_system.Kalloc.Round.{page_round_up_lem}
use risc_v_operating_system.Vm.{maxva, is_valid}
use risc_v_operating_system.Vm.View.{part, view, Layout}
use risc_v_operating_system.Vm.Table.{IsTable}
use risc_v_operating_system.Vm.Mapping.{Unmapped, Mapping}
use risc_v_operating_system.Vm.Shrink.{pages_between}
use risc_v_operating_system.Vm.Free.{kfree-Kept}
use risc_v_operating_system.Vm.Space.{user_perm, grow_page, grow_loop, uvmalloc}
use risc_v_operating_system.Vm.Fresh.{NewPage, kalloc-NewPage}
use risc_v_operating_system.Vm.Extend.{Extended, Extended-suc}
use risc_v_operating_system.Vm.Back.{map_one, Extended-back}
use risc_v_operating_system.Vm.Restore.{Restored, dealloc-Restored}

module _ (kernel_end root old : ℕ) (k0 : Kmem) (used0 : List ℕ) where
  -- what a round leaves
  abbrev GrownPage : (n : ℕ) → Bool × Kmem → Type 0
  GrownPage n (b, k) =
      ((b ≡ true) × Extended kernel_end root old k0 used0 (suc n) k)
      ⊎ ((b ≡ false) × Restored kernel_end root old k0 used0 n k)

  grow_page-GrownPage :
      (n a : ℕ) (k kq : Kmem) (mem : ℕ)
      → 0 < kernel_end
      → old % page_size ≡ 0
      → a ≡ old + n * page_size
      → old + suc n * page_size ≤ maxva
      → is_valid (view 2 k0.ram root a) ≡ false
      → (x : Extended kernel_end root old k0 used0 n k)
      → NewPage kernel_end k x.used root x.layout mem (record kq { ram = fill_page kq.ram mem 0 })
      → Safely (GrownPage n) (grow_page kernel_end root a old mem kq)
  unfolding grow_page
  grow_page-GrownPage n a k kq mem low aligned is_end fits free x new =
      let k1 = record kq { ram = fill_page kq.ram mem 0 } in
      let z : part 3 a ≡ 0 = omega arith in
      let invalid : is_valid (view 2 k1.ram root a) ≡ false =
        ap is_valid (new.views a z ∙ x.views a z (inr (omega arith))) ∙ free in
      Safely-bind
        (map_one kernel_end root k1 (mem ∷ x.used) x.layout a mem low new.table (omega arith)
          (omega arith) new.page invalid)
        (λ r m0.
          let m =
            subst
              (λ u. Mapping kernel_end k1 (mem ∷ x.used) root x.layout u 1 mem user_perm r.0 r.1)
              is_end m0 in
          elim m.outcome [
            | inl all ↦
                let test : (r.0 == 0) ≡ true = ground (arith, all.0) in
                rw test (
                  safely (
                    inl (
                      refl,
                      Extended-suc kernel_end root old k0 used0 n k k1 r.1 mem r.0 aligned fits x
                          new m all.1,
                    )))
            | inr out ↦
                let test : (r.0 == 0) ≡ false = ground (arith, out.0) in
                let nothing : m.count ≡ 0 = omega (arith, out.1) in
                let here : 0 < occurrences mem (mem ∷ x.used) = ground arith in
                rw test (
                  Safely-bind
                    (kfree-Kept kernel_end r.1 m.used' root m.layout mem low m.table
                      (omega (arith, m.grows mem, here))
                      (m.keeps mem 0 here new.no_table (omega arith)).0)
                    (λ k3 kept.
                      Safely-bind
                        (dealloc-Restored kernel_end root old k0 used0 n a k3 low aligned is_end
                          (omega arith)
                          (Extended-back kernel_end root old k0 used0 n k k1 r.1 k3 mem r.0 aligned
                            fits x new m nothing kept))
                        (λ d back. safely (inr (refl, back)))))
          ])

  -- Fewer pages than asked for were added and taken out again.
  pub record Failed (total : ℕ) (k : Kmem) : Type 0 where
    pub count : ℕ
    pub few : count ≤ total
    pub restored : Restored kernel_end root old k0 used0 count k

  -- what the loop of `uvmalloc` returns
  abbrev pub IsGrown : (total newsz : ℕ) → ℕ × Kmem → Type 0
  IsGrown total newsz (r, k) =
      ((r ≡ newsz) × Extended kernel_end root old k0 used0 total k) ⊎ ((r ≡ 0) × Failed total k)

  grow_loop-IsGrown :
      (total newsz j n fuel a : ℕ) (k : Kmem)
      → 0 < kernel_end
      → old % page_size ≡ 0
      → newsz ≤ old + total * page_size
      → old + total * page_size < newsz + page_size
      → old + total * page_size ≤ maxva
      → Unmapped k0 root old total
      → n + j ≡ total
      → j < fuel
      → a ≡ old + n * page_size
      → Extended kernel_end root old k0 used0 n k
      → Safely (IsGrown total newsz) (grow_loop kernel_end fuel root a old newsz k)
  unfolding grow_loop
  grow_loop-IsGrown total newsz j n zero a k low aligned up near fits free sum enough is_end x =
      absurd (omega arith)
  grow_loop-IsGrown total newsz zero n (suc fuel) a k low aligned up near fits free sum enough
        is_end x =
      let test : ltb a newsz ≡ false = ground arith in
      let same : n ≡ total = omega arith in
      rw test (safely (inl (refl, subst (λ i. Extended kernel_end root old k0 used0 i k) same x)))
  grow_loop-IsGrown total newsz (suc j) n (suc fuel) a k low aligned up near fits free sum enough
        is_end x =
      let test : ltb a newsz ≡ true = ground arith in
      let room : old + suc n * page_size ≤ maxva = omega arith in
      elim (Bool-cases ((kalloc k).0 == 0)) [
        | inl out ↦
            let zero_page : (kalloc k).0 ≡ 0 = ground arith in
            let same : (kalloc k).1 ≡ k = elim (kalloc-new kernel_end k x.used x.table.sound) [
              | inl none_left ↦ none_left.1
              | inr some_left ↦ absurd (ground (arith, some_left.0))
            ] in
            rw (test, out, same)
              (Safely-bind
                (dealloc-Restored kernel_end root old k0 used0 n a k low aligned is_end
                  (omega arith) x)
                (λ d back.
                  safely (inr (refl, record { count = n; few = omega arith; restored = back }))))
        | inr got ↦
            let next : u64 (a + page_size) ≡ a + page_size = omega arith in
            let new = kalloc-NewPage kernel_end k x.used root x.layout low x.table (ground arith) in
            rw (test, got)
              (Safely-bind
                (grow_page-GrownPage n a k (kalloc k).1 (kalloc k).0 low aligned is_end room
                  (free a (omega arith) (omega arith)) x new)
                (λ g h. elim h [
                  | inl more ↦
                      rw (more.0, next)
                        (grow_loop-IsGrown total newsz j (suc n) fuel (a + page_size) g.1 low
                          aligned up near fits free (omega arith) (omega arith) (omega arith)
                          more.1)
                  | inr failed ↦ rw failed.0 (
                      safely
                        (inr (refl, record { count = n; few = omega arith; restored = failed.1 })))
                ]))
      ]

-- For a page table and a size that is not less than the old one, where no page of the process between the two
-- is mapped, `uvmalloc` ends without a panic. Either it returns the new size, and the page table maps
-- all these pages, to different pages that were not in use and hold no table, and all else as before. Or it
-- returns 0, and the page table maps every other address as before, and none of these pages. Pages in use before are still so.
pub uvmalloc-IsGrown :
    (kernel_end root oldsz newsz : ℕ) (k : Kmem) (used : List ℕ) (t : Layout)
    → 0 < kernel_end
    → IsTable kernel_end k used root t
    → oldsz ≤ newsz
    → newsz + page_size ≤ maxva
    → Unmapped k root (page_round_up oldsz) (pages_between oldsz newsz)
    → Safely
        (IsGrown kernel_end root (page_round_up oldsz) k used (pages_between oldsz newsz) newsz)
        (uvmalloc kernel_end root oldsz newsz k)
unfolding uvmalloc
uvmalloc-IsGrown kernel_end root oldsz newsz k used t low b le fits free =
    let old = page_round_up oldsz in
    let up_old = page_round_up_lem oldsz (omega arith) in
    let up_new = page_round_up_lem newsz (omega arith) in
    let test : ltb newsz oldsz ≡ false = ground arith in
    let start : Extended kernel_end root old k used 0 k = record {
      used = used;
      layout = t;
      table = b;
      views = λ va z out. refl;
      leaves = λ va le' lt. absurd (omega arith);
      owned = λ va le' lt. absurd (omega arith);
      apart = λ va va' le' between lt ne. absurd (omega arith);
      fresh = λ va le' lt. absurd (omega arith);
      grows = λ p. omega arith;
    } in
    rw test (
      grow_loop-IsGrown kernel_end root old k used (pages_between oldsz newsz) newsz
        (pages_between oldsz newsz) 0 (newsz / page_size + 2) old k low (omega (arith, up_old))
        (omega (arith, up_old, up_new)) (omega (arith, up_old, up_new))
        (omega (arith, up_old, up_new)) free (omega arith) (omega (arith, up_old, up_new))
        (omega arith) start)
