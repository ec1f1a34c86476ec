-- ===== src/Vm/Mappages.antt =====
-- `mappages`, from its loop on.
use risc_v_operating_system.Base.{
  ℕ, zero, suc, ◌+◌, ◌-◌, ◌*◌, ◌/◌, ◌%◌, ◌^◌, ◌≤◌, ◌<◌, ◌≡◌, refl, ap, ◌∙◌, ◌≢◌, inl, inr, true,
  false, Option, none, some, List, arith, ◌==◌, Bool-cases, Safely, safely, Safely-mono,
}
use risc_v_operating_system.Base.Word.{u64}
use risc_v_operating_system.Kalloc.{Kmem, page_size}
use risc_v_operating_system.Vm.{
  maxva, is_valid, entry, set_entry, walk_loop, map_loop, mappages, page_round_down,
}
use risc_v_operating_system.Vm.View.{part, Layout}
use risc_v_operating_system.Vm.Table.{IsTable, IsOnWay-root}
use risc_v_operating_system.Vm.Reach.{Walked, walk_loop-Walked}
use risc_v_operating_system.Vm.Walk.{Slot-view}
use risc_v_operating_system.Vm.Leaf.{set_entry-view}
use risc_v_operating_system.Vm.Map.{leaf_entry, map_loop-none, map_loop-some}
use risc_v_operating_system.Vm.Mapping.{
  Unmapped, Mapping, Mapping-none, Mapping-some, Mapping-last, stored-Unmapped,
}

module _ (kernel_end root perm : ℕ) where
  -- what the loop does from `a` on, with `count` pages to map
  abbrev Maps : (count last fuel a pa : ℕ) → Type 0
  Maps count last fuel a pa =
      (k : Kmem) (used : List ℕ) (t : Layout)
      → IsTable kernel_end k used root t
      → Unmapped k root a count
      → Safely (λ (r : ℕ × Kmem). Mapping kernel_end k used root t a count pa perm r.0 r.1)
          (map_loop fuel root a last pa perm k)

  round :
      (n fuel a last pa : ℕ) (k : Kmem) (used : List ℕ) (t : Layout)
      → IsTable kernel_end k used root t
      → a % page_size ≡ 0
      → last ≡ a + n * page_size
      → last < maxva
      → pa + suc n * page_size ≤ 2 ^ 64
      → Unmapped k root a (suc n)
      → (n ≢ 0 → Maps n last fuel (a + page_size) (pa + page_size))
      → (r : Option ℕ × Kmem) → walk_loop 2 true root a k ≡ r
      → Walked kernel_end k used root t 2 root a r
      → Safely
          (λ (r : ℕ × Kmem). Mapping kernel_end k used root t a (suc n) pa perm r.0 r.1)
          (map_loop (suc fuel) root a last pa perm k)
  round n fuel a last pa k used t b aligned is_last fits pa_fits free rest (none, k1) e w =
      rw (map_loop-none fuel root a last pa perm k k1 (omega arith) e)
        (safely (Mapping-none kernel_end k k1 used root t a n pa perm (t.height root) w))
  round n fuel a last pa k used t b aligned is_last fits pa_fits free rest (some p, k1) e x =
      let z : part 3 a ≡ 0 = omega arith in
      let invalid : is_valid (entry k1 p) ≡ false =
        ap is_valid (Slot-view x.slot ∙ x.grew.views a z) ∙ free a (omega arith) (omega arith) in
      rw (map_loop-some fuel root a last pa perm p k k1 (omega arith) e invalid)
        (elim (Bool-cases (n == 0)) [
          | inl done ↦
              let none_after : n ≡ 0 = ground arith in
              let test : (a == last) ≡ true = ground arith in
              rw test (
                safely
                  (Mapping-last kernel_end k k1 used root t a pa perm p aligned z x n none_after))
          | inr more ↦
              let test : (a == last) ≡ false = ground arith in
              let next : u64 (a + page_size) ≡ a + page_size = ground arith in
              let next_pa : u64 (pa + page_size) ≡ pa + page_size = ground arith in
              let s =
                set_entry-view kernel_end k1 x.grew.used' root x.grew.layout a p
                  (leaf_entry pa perm) x.grew.table z x.slot in
              rw (test, next, next_pa)
                (Safely-mono
                  (rest (ground arith) (set_entry p (leaf_entry pa perm) k1) x.grew.used'
                    x.grew.layout s.0
                    (stored-Unmapped kernel_end k k1 used root t a pa perm p aligned z x n b
                      (omega arith) free))
                  (λ r m.
                    Mapping-some kernel_end k k1 used root t a pa perm p aligned z x n r.0 r.1 m))
        ])

  map_loop-Mapping :
      (n fuel a last pa : ℕ)
      → 0 < kernel_end
      → n < fuel
      → a % page_size ≡ 0
      → last ≡ a + n * page_size
      → last < maxva
      → pa + suc n * page_size ≤ 2 ^ 64
      → Maps (suc n) last fuel a pa
  map_loop-Mapping n zero a last pa low enough aligned is_last fits pa_fits k used t b free =
      absurd (omega arith)
  map_loop-Mapping zero (suc fuel) a last pa low enough aligned is_last fits pa_fits k used t b
        free =
      round zero fuel a last pa k used t b aligned is_last fits pa_fits free
        (λ ne. absurd (ne refl)) _ refl
        (walk_loop-Walked kernel_end 2 root a k used root t low (omega arith) b
          (IsOnWay-root kernel_end k used root t a b (omega arith)))
  map_loop-Mapping (suc n) (suc fuel) a last pa low enough aligned is_last fits pa_fits k used t b
        free =
      round (suc n) fuel a last pa k used t b aligned is_last fits pa_fits free
        (λ ne.
          map_loop-Mapping n fuel (a + page_size) last (pa + page_size) low (omega arith)
            (omega arith) (omega arith) fits (omega arith))
        _ refl
        (walk_loop-Walked kernel_end 2 root a k used root t low (omega arith) b
          (IsOnWay-root kernel_end k used root t a b (omega arith)))

-- the pages from that of `va` to that of `va + size - 1`
abbrev pub page_count : (va size : ℕ) → ℕ
page_count va size = (va + size - 1) / page_size - va / page_size + 1

-- In a page table whose pages are in use, for a range below `MAXVA` with at least one byte and no
-- page that is mapped yet, `mappages` ends without a panic: it maps the pages of the range in
-- order to those from `pa` on, and no other page, and returns 0, or it returns -1 when no page is left
-- for a table, with the first pages of the range mapped. Other pages in use keep their contents.
pub mappages-Mapping :
    (kernel_end root perm : ℕ) (k : Kmem) (used : List ℕ) (t : Layout) (va size pa : ℕ)
    → 0 < kernel_end
    → IsTable kernel_end k used root t
    → 0 < size
    → va + size ≤ maxva
    → pa + size + 2 ^ 13 ≤ 2 ^ 64
    → Unmapped k root (page_round_down va) (page_count va size)
    → Safely
        (λ (r : ℕ × Kmem).
          Mapping kernel_end k used root t
            (page_round_down va)
            (page_count va size)
            pa
            perm
            r.0
            r.1)
        (mappages root va size pa perm k)
unfolding mappages
mappages-Mapping kernel_end root perm k used t va size pa low b some_byte fits pa_fits free =
    let n = (va + size - 1) / page_size - va / page_size in
    let last_byte : u64 (va + size + (2 ^ 64 - 1)) ≡ va + size - 1 = omega arith in
    let is_suc : n + 1 ≡ suc n = omega arith in
    rw (last_byte, is_suc)
      (map_loop-Mapping kernel_end root perm n (2 ^ 26 + 1) (page_round_down va)
        (page_round_down (va + size - 1)) pa low (omega arith) (omega arith) (omega arith)
        (omega arith) (omega arith) k used t b (rw is_suc at free))
