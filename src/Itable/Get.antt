-- ===== src/Itable/Get.antt =====
-- `iget`: a slot of the inode table for a file.
use risc_v_operating_system.Base.{
  ℕ, zero, suc, ◌+◌, ◌^◌, ◌<◌, ◌≡◌, refl, sym, ap, ◌∙◌, ◌≢◌, inl, inr, Bool, true, false, ◌&&◌,
  Option, none, some, List, ◌∷◌, arith, ◌==◌, if◌then◌else◌, Bool-cases, occurrences, update,
  update_self, update_ne, update_lem, Run, ok, panic,
}
use risc_v_operating_system.Base.{RefCounts-change}
use risc_v_operating_system.Base.Word.{u32}
use risc_v_operating_system.Inode.{Inode}
use risc_v_operating_system.Itable.{
  Itable, ninode, set_inode, Search, found, empty, is_none, positive, iget_loop, take_slot, iget,
  idup,
}
use risc_v_operating_system.Itable.Counts.{IsOrdered, idup-IsOrdered}

-- the test of `iget`
abbrev pub stands_for : (dev inum : ℕ) → Inode → Bool
stands_for dev inum ip = positive ip.ref && (ip.dev == dev && ip.inum == inum)

-- the slot after a look at the first `i` inodes
abbrev IsSlot : Itable → ℕ → Option ℕ → Type 0
IsSlot t i none = (j : ℕ) → j < i → (t.inodes j).ref ≢ 0
IsSlot t i (some k) = (k < ninode) × ((t.inodes k).ref ≡ 0)

abbrev IsFound : (dev inum : ℕ) → Itable → Search → Type 0
IsFound dev inum t (found i) = (i < ninode) × (stands_for dev inum (t.inodes i) ≡ true)
IsFound dev inum t (empty slot) =
    ((j : ℕ) → j < ninode → stands_for dev inum (t.inodes j) ≡ false) × IsSlot t ninode slot

next-IsSlot :
    (t : Itable) (i : ℕ) (slot : Option ℕ)
    → i < ninode
    → IsSlot t i slot
    → IsSlot t (i + 1) (if is_none slot && (t.inodes i).ref == 0 then some i else slot)
next-IsSlot t i (some k) lt h = h
next-IsSlot t i none lt h = elim (Bool-cases ((t.inodes i).ref == 0)) [
  | inl z ↦ rw z (lt, ground arith)
  | inr nz ↦ rw nz (λ j le. elim (Bool-cases (j == i)) [
    | inl e ↦ let at : j ≡ i = ground arith in rw at (ground arith)
    | inr e ↦ h j (ground arith)
  ])
]

iget_loop-IsFound :
    (rounds i : ℕ) (slot : Option ℕ) (dev inum : ℕ) (t : Itable)
    → i + rounds ≡ ninode
    → IsSlot t i slot
    → ((j : ℕ) → j < i → stands_for dev inum (t.inodes j) ≡ false)
    → IsFound dev inum t (iget_loop rounds i slot dev inum t)
unfolding iget_loop
iget_loop-IsFound zero i slot dev inum t e h before =
    let all : i ≡ ninode = omega arith in (rw all at before, rw all at h)
iget_loop-IsFound (suc rounds) i slot dev inum t e h before =
    elim (Bool-cases (stands_for dev inum (t.inodes i))) [
      | inl hit ↦ rw hit (omega arith, hit)
      | inr miss ↦ rw miss (
          iget_loop-IsFound rounds (i + 1) _ dev inum t (omega arith)
            (next-IsSlot t i slot (omega arith) h)
            (λ j lt. elim (Bool-cases (j == i)) [
              | inl e ↦ let at : j ≡ i = ground arith in rw at miss
              | inr e ↦ before j (ground arith)
            ]))
    ]

unmatched :
    (dev inum : ℕ) (t : Itable) (refs : List ℕ) (j : ℕ)
    → IsOrdered t refs
    → ((k : ℕ) → k < ninode → stands_for dev inum (t.inodes k) ≡ false)
    → (t.inodes j).ref ≢ 0
    → (t.inodes j).dev ≡ dev
    → (t.inodes j).inum ≢ inum
unmatched dev inum t refs j o miss r d n = ground (
  arith,
  o.counts.exact j,
  o.counts.few j,
  miss j (ground (arith, o.counts.exact j, o.counts.inside j)),
)

-- An inode that stands for a file as no other does keeps all apart.
update_unique :
    (f : ℕ → Inode) (i : ℕ) (ip : Inode)
    → ((a b : ℕ)
        → (f a).ref ≢ 0
        → (f b).ref ≢ 0
        → (f a).dev ≡ (f b).dev
        → (f a).inum ≡ (f b).inum
        → a ≡ b)
    → ((j : ℕ) → (f j).ref ≢ 0 → (f j).dev ≡ ip.dev → (f j).inum ≢ ip.inum)
    → (a b : ℕ) → (update f i ip a).ref ≢ 0
    → (update f i ip b).ref ≢ 0
    → (update f i ip a).dev ≡ (update f i ip b).dev
    → (update f i ip a).inum ≡ (update f i ip b).inum
    → a ≡ b
update_unique f i ip unique alone a b = elim (Bool-cases (i == a)) [
  | inl ea ↦ elim (Bool-cases (i == b)) [
    | inl eb ↦ λ ra rb d n. ground arith
    | inr eb ↦
        rw (update_lem f i a ip, update_lem f i b ip, ea, eb)
          (λ ra rb d n. absurd (alone b rb (sym d) (sym n)))
  ]
  | inr ea ↦ elim (Bool-cases (i == b)) [
    | inl eb ↦
        rw (update_lem f i a ip, update_lem f i b ip, ea, eb) (λ ra rb d n. absurd (alone a ra d n))
    | inr eb ↦ rw (update_lem f i a ip, update_lem f i b ip, ea, eb) (unique a b)
  ]
]

-- A slot that nobody refers to is taken for a file that no inode stands for.
recycle-IsOrdered :
    (dev inum : ℕ) (t : Itable) (refs : List ℕ) (i : ℕ)
    → IsOrdered t refs
    → i < ninode
    → (t.inodes i).ref ≡ 0
    → ((j : ℕ) → j < ninode → stands_for dev inum (t.inodes j) ≡ false)
    → IsOrdered
        (set_inode i (record (t.inodes i) { dev = dev; inum = inum; ref = 1; valid = false }) t)
        (i ∷ refs)
recycle-IsOrdered dev inum t refs i o lt free miss =
    let exact = o.counts.exact i in
    let ip : Inode = record (t.inodes i) { dev = dev; inum = inum; ref = 1; valid = false } in
    let t' = set_inode i ip t in
    let here = update_self t.inodes i ip in
    let one : 1 ≡ occurrences i (i ∷ refs) = ground (arith, exact) in
    let fits : occurrences i (i ∷ refs) < 2 ^ 31 = omega arith in
    record {
      counts =
          RefCounts-change (λ j. (t'.inodes j).ref) (i ∷ refs) i o.counts lt
            (ap (λ (jp : Inode). jp.ref) here ∙ one) fits
            (λ j ne. (ap (λ (jp : Inode). jp.ref) (update_ne t.inodes i j ip ne), ground arith));
      unique =
          update_unique t.inodes i ip o.unique
            (λ j r d n. unmatched dev inum t refs j o miss r d n);
    }

-- what `iget` promises
abbrev pub IsGot : (dev inum : ℕ) → Itable → List ℕ → Run (ℕ × Itable) → Type 0
IsGot dev inum t refs panic =
    (i : ℕ) → i < ninode → (0 < occurrences i refs) × (stands_for dev inum (t.inodes i) ≡ false)
IsGot dev inum t refs (ok (i, t')) =
    (i < ninode)
    × ((t'.inodes i).dev ≡ dev)
    × ((t'.inodes i).inum ≡ inum)
    × IsOrdered t' (i ∷ refs)
    × ((j : ℕ) → i ≢ j → t'.inodes j ≡ t.inodes j)

idup-step :
    (t : Itable) (refs : List ℕ) (i : ℕ)
    → IsOrdered t refs
    → 0 < occurrences i refs
    → occurrences i refs + 1 < 2 ^ 31
    → IsOrdered
        (set_inode i (record (t.inodes i) { ref = u32 ((t.inodes i).ref + 1) }) t)
        (i ∷ refs)
unfolding idup
idup-step t refs i o h fits = idup-IsOrdered t refs i o h fits

take_slot-IsGot :
    (dev inum : ℕ) (end_ : Search) (t : Itable) (refs : List ℕ)
    → IsOrdered t refs
    → ((i : ℕ) → occurrences i refs + 1 < 2 ^ 31)
    → IsFound dev inum t end_
    → IsGot dev inum t refs (take_slot dev inum end_ t)
unfolding take_slot
take_slot-IsGot dev inum (found i) t refs o fits f =
    let exact = o.counts.exact i in
    let more : Inode = record (t.inodes i) { ref = u32 ((t.inodes i).ref + 1) } in
    let here = update_self t.inodes i more in
    (
      f.0,
      ap (λ (jp : Inode). jp.dev) here ∙ ground (arith, f.1),
      ap (λ (jp : Inode). jp.inum) here ∙ ground (arith, f.1),
      idup-step t refs i o (ground (arith, exact, f.1)) (fits i),
      λ j ne. update_ne t.inodes i j more ne,
    )
take_slot-IsGot dev inum (empty none) t refs o fits f =
    λ i lt. (ground (arith, o.counts.exact i, f.1 i lt), f.0 i lt)
take_slot-IsGot dev inum (empty (some i)) t refs o fits f =
    let ip : Inode = record (t.inodes i) { dev = dev; inum = inum; ref = 1; valid = false } in
    let here = update_self t.inodes i ip in
    (
      f.1.0,
      ap (λ (jp : Inode). jp.dev) here,
      ap (λ (jp : Inode). jp.inum) here,
      recycle-IsOrdered dev inum t refs i o f.1.0 f.1.1 f.0,
      λ j ne. update_ne t.inodes i j ip ne,
    )

-- Where the counts are exact and no two inodes in use stand for one file, `iget` panics only if
-- all inodes are in use and none stands for the file. Otherwise it returns an inode that stands
-- for the file, leaves the others alone, and with the reference that it gives the counts are
-- exact and no two inodes in use stand for one file. The hypothesis on the counts is that one
-- more fits an `int`.
pub iget-IsGot :
    (dev inum : ℕ) (t : Itable) (refs : List ℕ)
    → IsOrdered t refs
    → ((i : ℕ) → occurrences i refs + 1 < 2 ^ 31)
    → IsGot dev inum t refs (iget dev inum t)
unfolding iget
iget-IsGot dev inum t refs o fits =
    take_slot-IsGot dev inum (iget_loop ninode 0 none dev inum t) t refs o fits (
      iget_loop-IsFound ninode 0 none dev inum t refl (λ j lt. absurd (omega arith))
        (λ j lt. absurd (omega arith)))
