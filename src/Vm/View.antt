-- ===== src/Vm/View.antt =====
-- A page table read as a tree: `level` tables lie below the page `p`.
use risc_v_operating_system.Base.{
  ℕ, zero, suc, ◌+◌, ◌*◌, ◌/◌, ◌%◌, ◌≤◌, ◌<◌, ◌≡◌, refl, ◌≢◌, inl, inr, true, arith, if◌then◌else◌,
  Bool-cases,
}
use risc_v_operating_system.Kalloc.{page_size}
use risc_v_operating_system.Vm.{pte2pa, is_valid}

-- the page number of an address, without its last `level` parts
abbrev pub part : (level va : ℕ) → ℕ
part zero va = va / page_size
part (suc level) va = part level va / 512

-- The entry that the table in `ram` has for an address, or 0.
unfoldable pub view : (level : ℕ) → (ram : ℕ → ℕ) → (p va : ℕ) → ℕ
view zero ram p va = ram (p / 8 + part 0 va % 512)
view (suc level) ram p va =
    let w = ram (p / 8 + part (suc level) va % 512) in
    let below = view level ram (pte2pa w) va in if is_valid w then below else 0

-- What each page is: `height` is 0 for one that is no table, else 1 for a table of leaves, 2 for the
-- tables above these and 3 for the root; `prefix` is the part of the address that leads to it.
pub record Layout : Type 0 where
  pub height : ℕ → ℕ
  pub prefix : ℕ → ℕ

-- Each table has the place that the entries above it give it.
abbrev pub IsTree : (ℕ → ℕ) → Layout → Type 0
IsTree ram t =
    (p i : ℕ)
    → 2 ≤ t.height p
    → i < 512
    → is_valid (ram (p / 8 + i)) ≡ true
    → (t.height (pte2pa (ram (p / 8 + i))) + 1 ≡ t.height p)
      × (t.prefix (pte2pa (ram (p / 8 + i))) ≡ t.prefix p * 512 + i)

-- The page is a table on the way to an address.
abbrev pub IsOnWay : Layout → (level p va : ℕ) → Type 0
IsOnWay t level p va = (t.height p ≡ suc level) × (t.prefix p ≡ part (suc level) va)

pub IsOnWay-child :
    (ram : ℕ → ℕ) (t : Layout) (level p va : ℕ)
    → IsTree ram t
    → IsOnWay t (suc level) p va
    → is_valid (ram (p / 8 + part (suc level) va % 512)) ≡ true
    → IsOnWay t level (pte2pa (ram (p / 8 + part (suc level) va % 512))) va
IsOnWay-child ram t level p va tree way valid =
    let c = tree p (part (suc level) va % 512) (omega (arith, way.0)) (omega arith) valid in
    (omega (arith, c.0, way.0), omega (arith, c.1, way.1))

-- the same tables
pub view-frame :
    (ram ram' : ℕ → ℕ) (t : Layout) (level p va : ℕ)
    → IsTree ram t
    → IsOnWay t level p va
    → ((c i : ℕ) → t.height c ≢ 0 → i < 512 → ram' (c / 8 + i) ≡ ram (c / 8 + i))
    → view level ram' p va ≡ view level ram p va
unfolding view
view-frame ram ram' t zero p va tree way same =
    same p (part 0 va % 512) (omega (arith, way.0)) (omega arith)
view-frame ram ram' t (suc level) p va tree way same =
    let here = same p (part (suc level) va % 512) (omega (arith, way.0)) (omega arith) in
    rw here (elim (Bool-cases (is_valid (ram (p / 8 + part (suc level) va % 512)))) [
      | inr invalid ↦ rw invalid refl
      | inl valid ↦ rw valid (
          view-frame ram ram' t level (pte2pa (ram (p / 8 + part (suc level) va % 512))) va tree
            (IsOnWay-child ram t level p va tree way valid) same)
    ])
