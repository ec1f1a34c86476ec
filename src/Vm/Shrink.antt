-- ===== src/Vm/Shrink.antt =====
-- An address space that shrinks, and one that is freed.
use mathlib.Core.Path.{subst}
use risc_v_operating_system.Base.{
  ℕ, zero, suc, ◌+◌, ◌-◌, ◌*◌, ◌/◌, ◌^◌, ◌≤◌, ◌<◌, ◌≡◌, refl, sym, ap, ◌∙◌, ◌≢◌, ◌⊎◌, inl, inr,
  true, false, List, ◌∷◌, arith, ltb, leb, ◌==◌, Bool-cases, remove, update, update_ne, Run, ok,
  ◌>>=◌, Safely, safely, Safely-bind,
}
use risc_v_operating_system.Kalloc.{Kmem, page_size, page_round_up, kfree}
use risc_v_operating_system.Kalloc.Round.{page_round_up_lem}
use risc_v_operating_system.Kalloc.Own.{Sound, kfree-used}
use risc_v_operating_system.Vm.{maxva, uvmcreate, pte2pa, is_valid, entry}
use risc_v_operating_system.Vm.View.{Layout}
use risc_v_operating_system.Vm.Table.{IsTable}
use risc_v_operating_system.Vm.Unmap.{Leaves, Owned, Apart}
use risc_v_operating_system.Vm.Unmapping.{Unmapping}
use risc_v_operating_system.Vm.Uvmunmap.{Unmapping-none, uvmunmap-Unmapping}
use risc_v_operating_system.Vm.Create.{no_height, only, uvmcreate-IsCreated}
use risc_v_operating_system.Vm.Space.{
  int_to_u64, uvmdealloc, free_entry, free_entries, freewalk, uvmfree,
}

-- the whole pages between two sizes
abbrev pub pages_between : (newsz oldsz : ℕ) → ℕ
pages_between newsz oldsz = (page_round_up oldsz - page_round_up newsz) / page_size

int_small : (n : ℕ) → n < 2 ^ 31 → int_to_u64 n ≡ n
int_small n h = ground arith

remove_first : (p : ℕ) (ps : List ℕ) → remove p (p ∷ ps) ≡ ps
unfolding remove
remove_first p ps = let same : (p == p) ≡ true = ground arith in rw same refl

module _ (kernel_end : ℕ) where
  -- what `uvmdealloc` leaves
  abbrev pub Shrunk :
      (k : Kmem) (used : List ℕ) (root : ℕ) (t : Layout) (oldsz newsz : ℕ) → ℕ × Kmem → Type 0
  Shrunk k used root t oldsz newsz (r, k') =
      ((oldsz ≤ newsz) × (r ≡ oldsz) × (k' ≡ k))
      ⊎ ((newsz < oldsz)
          × (r ≡ newsz)
          × Unmapping kernel_end k used root t (page_round_up newsz) (pages_between newsz oldsz)
              true k')

  -- Where each page of the process between the new size and the old one is mapped, to different pages in use
  -- without a table, `uvmdealloc` ends without a panic. It returns the old size and changes nothing if
  -- the new one is not less. Otherwise it returns the new size, takes these pages out of the page
  -- table and frees them, and keeps all others.
  pub uvmdealloc-Shrunk :
      (k : Kmem) (used : List ℕ) (root : ℕ) (t : Layout) (oldsz newsz : ℕ)
      → 0 < kernel_end
      → IsTable kernel_end k used root t
      → oldsz ≤ maxva
      → newsz ≤ maxva
      → Leaves k root (page_round_up newsz) (pages_between newsz oldsz)
      → Owned k used root t (page_round_up newsz) (pages_between newsz oldsz)
      → Apart k root (page_round_up newsz) (pages_between newsz oldsz)
      → Safely (Shrunk k used root t oldsz newsz) (uvmdealloc kernel_end root oldsz newsz k)
  unfolding uvmdealloc
  uvmdealloc-Shrunk k used root t oldsz newsz low b old_fits new_fits leaves owned apart =
      let old = page_round_up_lem oldsz (omega arith) in
      let new = page_round_up_lem newsz (omega arith) in
      elim (Bool-cases (leb oldsz newsz)) [
        | inl grow ↦ rw grow (safely (inl (ground arith, refl, refl)))
        | inr shrink ↦
            rw shrink (elim (Bool-cases (ltb (page_round_up newsz) (page_round_up oldsz))) [
              | inl some_pages ↦
                  rw (some_pages, int_small (pages_between newsz oldsz) (omega (arith, old)))
                    (Safely-bind
                      (uvmunmap-Unmapping kernel_end root (page_round_up newsz)
                        (pages_between newsz oldsz) true k used t low b (omega (arith, new))
                        (ground (arith, old, new)) leaves (λ freeing. (owned, apart)))
                      (λ k' m. safely (inr (ground arith, refl, m))))
              | inr no_pages ↦
                  let empty : pages_between newsz oldsz ≡ 0 = ground arith in
                  rw no_pages (
                    safely (
                      inr (
                        ground arith,
                        refl,
                        subst
                            (λ n. Unmapping kernel_end k used root t (page_round_up newsz) n true k)
                            (sym empty)
                            (Unmapping-none kernel_end k used root t (page_round_up newsz) true b),
                      )))
            ])
      ]

  -- A page table without entries frees no page but its own.
  free_entries-none :
      (below : ℕ → Kmem → Run Kmem) (root count : ℕ) (k : Kmem)
      → count ≤ 512
      → ((i : ℕ) → i < 512 → is_valid (k.ram (root / 8 + i)) ≡ false)
      → free_entries kernel_end below root count k ≡ ok k
  unfolding free_entries free_entry
  free_entries-none below root zero k le none_valid = refl
  free_entries-none below root (suc count) k le none_valid =
      let i = 512 - suc count in
      let word : (root + 8 * i) / 8 ≡ root / 8 + i = omega arith in
      let invalid : is_valid (entry k (root + 8 * i)) ≡ false =
        ap (λ x. is_valid (k.ram x)) word ∙ none_valid i (omega arith) in
      rw invalid (free_entries-none below root count k (omega arith) none_valid)

  only_invalid :
      (k : Kmem) (used : List ℕ) (root i : ℕ)
      → IsTable kernel_end k used root (only root)
      → i < 512
      → is_valid (k.ram (root / 8 + i)) ≡ false
  only_invalid k used root i b lt = elim (Bool-cases (is_valid (k.ram (root / 8 + i)))) [
    | inr invalid ↦ invalid
    | inl valid ↦
        let c = pte2pa (k.ram (root / 8 + i)) in
        let child = (b.tree root i (omega (arith, b.top.0)) lt valid).0 in
        absurd (elim (Bool-cases (root == c)) [
          | inl same ↦
              let e : c ≡ root = ground arith in
              let h = ap (update no_height root 3) e in omega (arith, h, child, b.top.0)
          | inr other ↦
              let h = update_ne no_height root c 3 (ground arith) in
              omega (arith, h, child, b.top.0)
        ])
  ]

  freewalk-suc :
      (level root : ℕ) (k : Kmem)
      → freewalk kernel_end (suc level) root k
        ≡ (free_entries kernel_end (freewalk kernel_end level) root 512 k >>= kfree kernel_end root)
  unfolding freewalk
  freewalk-suc level root k = refl

  -- What `uvmcreate` made, `uvmfree` of no memory gives back: it ends without a panic, and the pages in
  -- use are those of before.
  pub uvmfree-uvmcreate :
      (k : Kmem) (used : List ℕ)
      → 0 < kernel_end
      → Sound kernel_end k used
      → (uvmcreate k).0 ≢ 0
      → Safely
          (λ k'. Sound kernel_end k' used)
          (uvmfree kernel_end (uvmcreate k).0 0 (uvmcreate k).1)
  unfolding uvmfree
  uvmfree-uvmcreate k used low s nz = elim (uvmcreate-IsCreated kernel_end k used low s) [
    | inl out ↦ absurd (nz out.0)
    | inr made ↦
        let root = (uvmcreate k).0 in
        let k' = (uvmcreate k).1 in
        let all_empty =
          free_entries-none (freewalk kernel_end 2) root 512 k' (omega arith)
            (λ i lt. only_invalid k' (root ∷ used) root i made.1 lt) in
        let freed = kfree-used kernel_end k' (root ∷ used) root low made.1.sound (ground arith) in
        rw (freewalk-suc 2 root k', all_empty) (rw (remove_first root used) at freed)
  ]
