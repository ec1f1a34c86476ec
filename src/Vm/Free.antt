-- ===== src/Vm/Free.antt =====
-- `kfree` of a page beside a page table.
use risc_v_operating_system.Base.{
  ℕ, zero, suc, ◌+◌, ◌/◌, ◌%◌, ◌<◌, ◌≡◌, sym, ap, ◌∙◌, ◌≢◌, false, List, arith, ◌==◌, occurrences,
  remove, occurrences-remove, update, update_ne, Safely, safely, was_safe,
}
use risc_v_operating_system.Kalloc.{Kmem, page_size, fill_page, kfree}
use risc_v_operating_system.Kalloc.Chain.{fill_page-ne}
use risc_v_operating_system.Kalloc.Own.{Sound, kfree-page, kfree-used}
use risc_v_operating_system.Vm.{pte2pa, is_valid}
use risc_v_operating_system.Vm.View.{part, Layout, IsTree, IsOnWay, IsOnWay-child}
use risc_v_operating_system.Vm.Store.{Leads}
use risc_v_operating_system.Vm.Table.{IsTable, page_of, IsTable-IsAligned}
use risc_v_operating_system.Vm.Walk.{Slot}

-- The tables have the same words.
abbrev pub SameTables : Layout → (ram ram' : ℕ → ℕ) → Type 0
SameTables t ram ram' = (c i : ℕ) → t.height c ≢ 0 → i < 512 → ram' (c / 8 + i) ≡ ram (c / 8 + i)

pub IsTree-frame :
    (ram ram' : ℕ → ℕ) (t : Layout) → IsTree ram t → SameTables t ram ram' → IsTree ram' t
IsTree-frame ram ram' t tree same p i high lt valid =
    let word = same p i (omega arith) lt in
    rw word (tree p i high lt (ap is_valid (sym word) ∙ valid))

Leads-frame :
    (ram ram' : ℕ → ℕ) (t : Layout) (level p va q : ℕ)
    → IsTree ram t
    → IsOnWay t level p va
    → SameTables t ram ram'
    → Leads level ram p va q
    → Leads level ram' p va q
Leads-frame ram ram' t zero p va q tree way same l = l
Leads-frame ram ram' t (suc level) p va q tree way same l =
    let word = same p (part (suc level) va % 512) (omega (arith, way.0)) (omega arith) in
    rw word (
      l.0,
      Leads-frame ram ram' t level (pte2pa (ram (p / 8 + part (suc level) va % 512))) va q tree
          (IsOnWay-child ram t level p va tree way l.0) same l.1,
    )

pub Slot-frame :
    (ram ram' : ℕ → ℕ) (t : Layout) (level p va a : ℕ)
    → IsTree ram t
    → IsOnWay t level p va
    → SameTables t ram ram'
    → Slot ram t level p va a
    → Slot ram' t level p va a
Slot-frame ram ram' t level p va a tree way same s = record {
  leaf = s.leaf;
  way = s.way;
  leads = Leads-frame ram ram' t level p va s.leaf tree way same s.leads;
  address = s.address;
}

module _ (kernel_end : ℕ) where
  -- a page table beside a change of memory
  abbrev pub Kept : (k : Kmem) (used : List ℕ) (root : ℕ) (t : Layout) → Kmem → Type 0
  Kept k used root t k' = IsTable kernel_end k' used root t × SameTables t k.ram k'.ram

  pub kfree-Kept :
      (k : Kmem) (used : List ℕ) (root : ℕ) (t : Layout) (pa : ℕ)
      → 0 < kernel_end
      → IsTable kernel_end k used root t
      → 0 < occurrences pa used
      → t.height pa ≡ 0
      → Safely (Kept k (remove pa used) root t) (kfree kernel_end pa k)
  kfree-Kept k used root t pa low b in_use no_table =
      let page = page_of kernel_end k used pa b.sound in_use in
      let k' : Kmem = record {
        freelist = pa;
        ram = update (fill_page k.ram pa 1) (pa / 8) k.freelist;
      } in
      let freed = kfree-page kernel_end k pa page in
      let sound : Sound kernel_end k' (remove pa used) =
        was_safe (rw freed at (kfree-used kernel_end k used pa low b.sound in_use)) in
      let apart : (c : ℕ) → t.height c ≢ 0 → pa ≢ c =
        λ c h e. let same = ap t.height e in h (omega (arith, same, no_table)) in
      let same : SameTables t k.ram k'.ram = λ c i h lt.
        let aligned = IsTable-IsAligned kernel_end k used root t b c h in
        let ne = apart c h in
        let pa_aligned : pa % page_size ≡ 0 = ground arith in
        update_ne (fill_page k.ram pa 1) (pa / 8) (c / 8 + i) k.freelist (omega arith)
        ∙ fill_page-ne k.ram pa 1 (c / 8 + i) pa_aligned (omega arith) in
      rw freed (
        safely (
          record {
            sound = sound;
            tree = IsTree-frame k.ram k'.ram t b.tree same;
            owned = λ c h.
                let o = b.owned c h in
                let ne = apart c h in
                let other : (c == pa) ≡ false = ground arith in
                ground (arith, occurrences-remove c pa used in_use);
            top = b.top;
          },
          same,
        ))
