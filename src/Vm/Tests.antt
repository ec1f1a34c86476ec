-- ===== src/Vm/Tests.antt =====
-- Page tables on a machine with a few pages above the kernel.
use risc_v_operating_system.Base.{
  ℕ, ◌+◌, ◌/◌, ◌%◌, ◌≤◌, ◌<◌, ◌≡◌, refl, sym, ap, ◌∙◌, ◌≢◌, inl, inr, true, false, List, [], ◌∷◌,
  arith, ◌==◌, if◌then◌else◌, Bool-cases, update_self, update_ne, Safely,
}
use risc_v_operating_system.Base.Word.{bit, bit-zero}
use risc_v_operating_system.Kalloc.{Kmem}
use risc_v_operating_system.Kalloc.Own.{Sound}
use risc_v_operating_system.Kalloc.{page_round_up}
use risc_v_operating_system.Kalloc.Round.{page_round_up_lem}
use risc_v_operating_system.Vm.Uvmalloc.{IsGrown, uvmalloc-IsGrown}
use risc_v_operating_system.Vm.Space.{uvmdealloc, uvmalloc}
use risc_v_operating_system.Vm.Shrink.{pages_between, Shrunk, uvmdealloc-Shrunk}
use risc_v_operating_system.Vm.{is_valid, mappages, uvmunmap}
use risc_v_operating_system.Vm.View.{part, view, Layout}
use risc_v_operating_system.Vm.Table.{IsTable}
use risc_v_operating_system.Vm.Walk.{view-none}
use risc_v_operating_system.Vm.Mapping.{Unmapped, Mapping}
use risc_v_operating_system.Vm.Mappages.{mappages-Mapping}
use risc_v_operating_system.Vm.Lookup.{IsMapped, walkaddr-mappages}
use risc_v_operating_system.Vm.Leaf.{view-page}
use risc_v_operating_system.Vm.Unmapping.{Unmapping}
use risc_v_operating_system.Vm.Uvmunmap.{uvmunmap-Unmapping}
use risc_v_operating_system.Vm.Create.{no_height, only}

-- three pages: a root, and two free ones
abbrev kernel_end : ℕ
kernel_end = 0x87ff_cff8

abbrev low : ℕ
low = 0x87ff_d000

abbrev middle : ℕ
middle = 0x87ff_e000

abbrev root : ℕ
root = 0x87ff_f000

abbrev start : Kmem
start = record { freelist = middle; ram = λ i. if i == middle / 8 then low else 0 }

start-Sound : Sound kernel_end start (root ∷ [])
start-Sound = record {
  free = middle ∷ low ∷ [];
  chain = (refl, omega arith, (refl, omega arith, refl));
  exclusive = λ q. ground arith;
}

root_word : (i : ℕ) → i < 512 → is_valid (start.ram (root / 8 + i)) ≡ false
root_word i lt =
    let other : (root / 8 + i == middle / 8) ≡ false = ground arith in rw other (bit-zero 0)

start-IsTable : IsTable kernel_end start (root ∷ []) root (only root)
start-IsTable = record {
  sound = start-Sound;
  tree = λ p i high lt valid. elim (Bool-cases (root == p)) [
    | inl e ↦
        let same : p ≡ root = ground arith in
        let clash =
          sym (root_word i lt) ∙ ap (λ x. is_valid (start.ram (x / 8 + i))) (sym same) ∙ valid in
        absurd (cc)
    | inr ne ↦
        let h = update_ne no_height root p 3 (ground arith) in absurd (omega (arith, h, high))
  ];
  owned = λ p h. elim (Bool-cases (root == p)) [
    | inl e ↦ ground arith
    | inr ne ↦ absurd (h (update_ne no_height root p 3 (ground arith)))
  ];
  top = (update_self no_height root 3, refl);
}

start-view : (va : ℕ) → view 2 start.ram root va ≡ 0
start-view va = view-none 1 start.ram root va (root_word (part 2 va % 512) (omega arith))

start-Unmapped : (a n : ℕ) → Unmapped start root a n
start-Unmapped a n va le lt = ap is_valid (start-view va) ∙ bit-zero 0

-- with the permissions `PTE_R | PTE_W | PTE_U`
mappages-Mapping_example :
    Safely
      (λ (r : ℕ × Kmem).
        Mapping kernel_end start (root ∷ []) root (only root) 8192 2 low 22 r.0 r.1)
      (mappages root 8200 4096 low 22 start)
mappages-Mapping_example =
    mappages-Mapping kernel_end root 22 start (root ∷ []) (only root) 8200 4096 low (omega arith)
      start-IsTable (omega arith) (omega arith) (omega arith) (start-Unmapped 8192 2)

walkaddr-mappages_example :
    Safely (IsMapped root 12300 (low + 4096)) (mappages root 8200 8000 low 22 start)
unfolding bit
walkaddr-mappages_example =
    walkaddr-mappages kernel_end root 22 start (root ∷ []) (only root) 8200 8000 low 12300
      (omega arith) start-IsTable (omega arith) (omega arith) (omega arith) (omega arith) refl
      (start-Unmapped 8192 2) (omega arith) (omega arith)

-- four pages: one of data, and three tables that map the first page to it
abbrev kernel_end4 : ℕ
kernel_end4 = 0x87ff_bff8

abbrev data_page : ℕ
data_page = 0x87ff_c000

abbrev full : Kmem
full = record {
  freelist = 0;
  ram = λ i.
      if i == root / 8
      then middle / 4 + 1
      else if i == middle / 8
      then low / 4 + 1
      else if i == low / 8
      then data_page / 4 + 31
      else 0;
}

abbrev full_layout : Layout
full_layout = record {
  height = λ p. if p == root then 3 else if p == middle then 2 else if p == low then 1 else 0;
  prefix = λ p. 0;
}

full_used : List ℕ
full_used = data_page ∷ low ∷ middle ∷ root ∷ []

-- The tables have no other entries.
full_empty :
    (p i : ℕ) → 2 ≤ full_layout.height p → i < 512 → i ≢ 0 → is_valid (full.ram (p / 8 + i)) ≢ true
unfolding bit
full_empty p i high lt later valid =
    let w1 : (p / 8 + i == root / 8) ≡ false = ground arith in
    let w2 : (p / 8 + i == middle / 8) ≡ false = ground arith in
    let w3 : (p / 8 + i == low / 8) ≡ false = ground arith in
    let clash : is_valid 0 ≡ true = rw (w1, w2, w3) at valid in ground arith

full-IsTable : IsTable kernel_end4 full full_used root full_layout
unfolding full_used bit
full-IsTable = record {
  sound = record { free = []; chain = refl; exclusive = λ q. ground arith };
  tree = λ p i high lt valid. elim (Bool-cases (i == 0)) [
    | inl first ↦
        let index : i ≡ 0 = ground arith in
        elim (Bool-cases (p == root)) [
          | inl e ↦ let same : p ≡ root = ground arith in rw (index, same) (refl, refl)
          | inr ne ↦ let same : p ≡ middle = ground arith in rw (index, same) (refl, refl)
        ]
    | inr later ↦ absurd (full_empty p i high lt (ground arith) valid)
  ];
  owned = λ p h. ground arith;
  top = (refl, refl);
}

full_view : (va : ℕ) → va < 4096 → view 2 full.ram root va ≡ data_page / 4 + 31
unfolding view bit
full_view va lt = view-page 2 full.ram root va 0 (omega arith) ∙ refl

uvmunmap-Unmapping_example :
    Safely
      (Unmapping kernel_end4 full full_used root full_layout 0 1 true)
      (uvmunmap kernel_end4 root 0 1 true full)
unfolding bit full_used
uvmunmap-Unmapping_example =
    uvmunmap-Unmapping kernel_end4 root 0 1 true full full_used full_layout (omega arith)
      full-IsTable (omega arith) (omega arith)
      (λ va le lt. rw (full_view va lt) (refl, omega arith))
      (λ freeing. (
        λ va le lt. rw (full_view va lt) (omega arith, refl),
        λ va va' le between lt ne. absurd (ne (omega arith)),
      ))

up_none : page_round_up 0 ≡ 0
up_none = page_round_up_lem 0 (omega arith)

up_page : page_round_up 4096 ≡ 4096
up_page = page_round_up_lem 4096 (omega arith)

uvmdealloc-Shrunk_example :
    Safely
      (Shrunk kernel_end4 full full_used root full_layout 4096 0)
      (uvmdealloc kernel_end4 root 4096 0 full)
unfolding bit full_used
uvmdealloc-Shrunk_example =
    uvmdealloc-Shrunk kernel_end4 full full_used root full_layout 4096 0 (omega arith) full-IsTable
      (omega arith) (omega arith)
      (λ va le lt. rw (full_view va (omega (arith, up_none, up_page))) (refl, omega arith))
      (λ va le lt. rw (full_view va (omega (arith, up_none, up_page))) (omega arith, refl))
      (λ va va' le between lt ne. absurd (ne (omega (arith, up_none, up_page))))

uvmalloc-IsGrown_example :
    Safely
      (IsGrown kernel_end root (page_round_up 0) start (root ∷ []) (pages_between 0 4096) 4096)
      (uvmalloc kernel_end root 0 4096 start)
uvmalloc-IsGrown_example =
    uvmalloc-IsGrown kernel_end root 0 4096 start (root ∷ []) (only root) (omega arith)
      start-IsTable (omega arith) (omega arith)
      (start-Unmapped (page_round_up 0) (pages_between 0 4096))
