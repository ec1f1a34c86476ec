-- ===== src/Vm/Lookup.antt =====
-- `walkaddr`: what a page table has for an address of a process.
use risc_v_operating_system.Base.{
  ℕ, ◌+◌, ◌-◌, ◌*◌, ◌/◌, ◌%◌, ◌^◌, ◌≤◌, ◌<◌, ◌≡◌, refl, sym, ap, ◌∙◌, ◌⊎◌, inl, inr, Bool, true,
  false, ◌&&◌, not, Option, none, some, List, arith, ltb, leb, if◌then◌else◌, Bool-cases,
  occurrences, ok, Safely, Safely-mono,
}
use risc_v_operating_system.Base.Word.{lor, bit-zero}
use risc_v_operating_system.Kalloc.{Kmem, page_size, kalloc}
use risc_v_operating_system.Kalloc.Chain.{is_page}
use risc_v_operating_system.Kalloc.Own.{Sound, kalloc-new}
use risc_v_operating_system.Vm.{
  maxva, pa2pte, minus_one, page_round_down, mappages, pte2pa, is_valid, is_user, entry, walk_loop,
  walk, walkaddr_entry, walkaddr,
}
use risc_v_operating_system.Vm.View.{part, view, Layout}
use risc_v_operating_system.Vm.Table.{IsTable, IsOnWay-root}
use risc_v_operating_system.Vm.Entry.{pte2pa-pa2pte, is_valid-pte_v, is_user-perm}
use risc_v_operating_system.Vm.Map.{leaf_entry}
use risc_v_operating_system.Vm.Mapping.{Unmapped}
use risc_v_operating_system.Vm.Mappages.{page_count, mappages-Mapping}
use risc_v_operating_system.Vm.Walk.{Found, walk_loop-Found}

-- the page of an entry that is valid and open to processes, or 0
abbrev pub user_page : ℕ → ℕ
user_page w = if is_valid w && is_user w then pte2pa w else 0

walkaddr-walk :
    (root va : ℕ) (k : Kmem)
    → va < maxva
    → walkaddr root va k ≡ ok (walkaddr_entry (walk_loop 2 false root va k).0 k)
unfolding walkaddr walk
walkaddr-walk root va k lt = let test : leb maxva va ≡ false = ground arith in rw test refl

walkaddr_above : (root va : ℕ) (k : Kmem) → maxva ≤ va → walkaddr root va k ≡ ok 0
unfolding walkaddr
walkaddr_above root va k le = let test : leb maxva va ≡ true = ground arith in rw test refl

both :
    (valid user : Bool) (x : ℕ)
    → (if not valid then 0 else if not user then 0 else x) ≡ (if valid && user then x else 0)
both false user x = refl
both true false x = refl
both true true x = refl

walkaddr_entry-user_page :
    (k : Kmem) (t : Layout) (p va : ℕ) (r : Option ℕ)
    → Found k t 2 p va r
    → walkaddr_entry r k ≡ user_page (view 2 k.ram p va)
unfolding walkaddr_entry
walkaddr_entry-user_page k t p va none e = rw (e, bit-zero 0) refl
walkaddr_entry-user_page k t p va (some a) e =
    rw (sym e.1) (both (is_valid (entry k a)) (is_user (entry k a)) _)

module _ (kernel_end : ℕ) where
  -- In a page table, `walkaddr` returns the page that the table has for an address below `MAXVA`, if the
  -- entry is valid and open to processes, else 0, and it does not panic.
  pub walkaddr-view :
      (k : Kmem) (used : List ℕ) (root : ℕ) (t : Layout) (va : ℕ)
      → IsTable kernel_end k used root t
      → walkaddr root va k ≡ ok (if ltb va maxva then user_page (view 2 k.ram root va) else 0)
  walkaddr-view k used root t va b = elim (Bool-cases (ltb va maxva)) [
    | inl below ↦
        let lt : va < maxva = ground arith in
        rw below (
          walkaddr-walk root va k lt
          ∙ ap ok (
              walkaddr_entry-user_page k t root va _
                (walk_loop-Found 2 root va k t (omega arith) b.tree
                  (IsOnWay-root kernel_end k used root t va b (omega arith))).1))
    | inr above ↦ rw above (walkaddr_above root va k (ground arith))
  ]

-- the entry that `mappages` makes for a process
user_page-leaf_entry :
    (pa perm : ℕ)
    → pa % page_size ≡ 0
    → pa < 2 ^ 56
    → perm < 2 ^ 10
    → is_user perm ≡ true
    → user_page (leaf_entry pa perm) ≡ pa
user_page-leaf_entry pa perm aligned fits small user =
    rw (is_valid-pte_v (lor 64 (pa2pte pa) perm), is_user-perm pa perm, user)
      (pte2pa-pa2pte pa perm aligned fits small)

kalloc_full :
    (kernel_end : ℕ) (k : Kmem) (used : List ℕ)
    → Sound kernel_end k used
    → ((p : ℕ) → is_page kernel_end p ≡ true → occurrences p used ≡ 1)
    → (kalloc k).0 ≡ 0
kalloc_full kernel_end k used s full = elim (kalloc-new kernel_end k used s) [
  | inl none_left ↦ none_left.0
  | inr some_left ↦ let f = full _ some_left.0 in absurd (omega (arith, f, some_left.1))
]

-- where `mappages` maps the address `va'` to
abbrev pub IsMapped : (root va' pa : ℕ) → ℕ × Kmem → Type 0
IsMapped root va' pa (r, k') =
    ((r ≡ 0) × (walkaddr root va' k' ≡ ok pa)) ⊎ ((r ≡ minus_one) × ((kalloc k').0 ≡ 0))

-- Where `mappages` is called for a process on a range of a page table below `MAXVA`, with at least
-- one byte and no page that is mapped yet, `walkaddr` then finds for each address of the range its page:
-- the page at `pa`, for the first page of the range, or the one as far behind it. Otherwise `mappages`
-- has returned -1, and no page of memory is left.
pub walkaddr-mappages :
    (kernel_end root perm : ℕ) (k : Kmem) (used : List ℕ) (t : Layout) (va size pa va' : ℕ)
    → 0 < kernel_end
    → IsTable kernel_end k used root t
    → va + size ≤ maxva
    → pa % page_size ≡ 0
    → pa + size + 2 ^ 13 ≤ 2 ^ 56
    → perm < 2 ^ 10
    → is_user perm ≡ true
    → Unmapped k root (page_round_down va) (page_count va size)
    → va ≤ va'
    → va' < va + size
    → Safely
        (IsMapped root va' (pa + (va' / page_size - va / page_size) * page_size))
        (mappages root va size pa perm k)
walkaddr-mappages kernel_end root perm k used t va size pa va' low b fits pa_aligned pa_fits small
      user free le lt =
    Safely-mono
      (mappages-Mapping kernel_end root perm k used t va size pa low b (omega arith) fits
        (omega arith) free)
      (λ r m. elim m.outcome [
        | inl all ↦
            let z : part 3 va' ≡ 0 = omega arith in
            let below : ltb va' maxva ≡ true = ground arith in
            let inside : (leb (page_round_down va) va'
                  && ltb va' (page_round_down va + m.count * page_size))
                ≡ true =
              ground (arith, all.1) in
            let word = m.views va' z in
            let pa' = pa + (va' / page_size - va / page_size) * page_size in
            let same : pa + (va' - page_round_down va) / page_size * page_size ≡ pa' =
              omega arith in
            let word' : view 2 r.1.ram root va' ≡ leaf_entry pa' perm =
              word
              ∙ ap
                  (λ c.
                    if c
                    then leaf_entry (pa + (va' - page_round_down va) / page_size * page_size) perm
                    else view 2 k.ram root va')
                  inside
              ∙ ap (λ x. leaf_entry x perm) same in
            inl (
              all.0,
              walkaddr-view kernel_end r.1 m.used' root m.layout va' m.table
                  ∙ rw (below, word')
                      (ap ok
                        (user_page-leaf_entry pa' perm (omega arith) (omega arith) small user)),
            )
        | inr out ↦ inr (out.0, kalloc_full kernel_end r.1 m.used' m.table.sound out.2)
      ])
