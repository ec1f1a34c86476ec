-- ===== src/Itable/Make.antt =====
-- `ialloc`: a new inode on the disk, and its slot in the table.
use risc_v_operating_system.Base.{
  ℕ, zero, suc, ◌+◌, ◌*◌, ◌^◌, ◌≤◌, ◌<◌, ◌≡◌, refl, ap, ◌∙◌, ◌≢◌, ◌⊎◌, inl, inr, ◌&&◌, List, ◌∷◌,
  arith, ltb, leb, ◌==◌, if◌then◌else◌, Bool-cases, occurrences, update, update_self, update_lem,
  Run, ok, panic, ◌>>=◌,
}
use risc_v_operating_system.Fs.{Superblock, Block, Store, keep}
use risc_v_operating_system.Fs.Words.{half, word, put_half, half-put_half_self, half-put_half_ne}
use risc_v_operating_system.Inode.{Inode, iblock, dip, read_dinode}
use risc_v_operating_system.Inode.Disk.{SameDinode, SameDinode-refl, on_disk}
use risc_v_operating_system.Itable.{Itable, ninode, clear_dinode, iget, ialloc_loop, ialloc}
use risc_v_operating_system.Itable.Counts.{IsOrdered}
use risc_v_operating_system.Itable.Get.{IsGot, iget-IsGot}

clear_dinode_lem :
    (rounds off : ℕ) (bytes : Block) (o : ℕ)
    → clear_dinode rounds off bytes o ≡ (if leb off o && ltb o (off + rounds) then 0 else bytes o)
unfolding clear_dinode
clear_dinode_lem zero off bytes o = ground arith
clear_dinode_lem (suc rounds) off bytes o =
    ground
      (arith, clear_dinode_lem rounds (off + 1) (update bytes off 0) o, update_lem bytes off o 0)

-- the new inode in its block
abbrev blank : (off file_type : ℕ) → Block → Block
blank off file_type bytes = put_half (clear_dinode 64 off bytes) off file_type

half-blank :
    (off file_type : ℕ) (bytes : Block) (o : ℕ)
    → off + 2 ≤ o
    → o + 2 ≤ off + 64
    → half (blank off file_type bytes) o ≡ 0
half-blank off file_type bytes o above below =
    half-put_half_ne (clear_dinode 64 off bytes) off file_type o (ground arith)
    ∙ ground (arith, clear_dinode_lem 64 off bytes o, clear_dinode_lem 64 off bytes (o + 1))

word-blank :
    (off file_type : ℕ) (bytes : Block) (o : ℕ)
    → off + 2 ≤ o
    → o + 4 ≤ off + 64
    → word (blank off file_type bytes) o ≡ 0
word-blank off file_type bytes o above below = ground (
  arith,
  half-blank off file_type bytes o (omega arith) (omega arith),
  half-blank off file_type bytes (o + 2) (omega arith) (omega arith),
)

half-blank_ne :
    (off file_type : ℕ) (bytes : Block) (o : ℕ)
    → (o + 2 ≤ off) ⊎ (off + 64 ≤ o)
    → half (blank off file_type bytes) o ≡ half bytes o
half-blank_ne off file_type bytes o h =
    half-put_half_ne (clear_dinode 64 off bytes) off file_type o (ground arith)
    ∙ ground (arith, clear_dinode_lem 64 off bytes o, clear_dinode_lem 64 off bytes (o + 1))

word-blank_ne :
    (off file_type : ℕ) (bytes : Block) (o : ℕ)
    → (o + 4 ≤ off) ⊎ (off + 64 ≤ o)
    → word (blank off file_type bytes) o ≡ word bytes o
word-blank_ne off file_type bytes o h = ground (
  arith,
  half-blank_ne off file_type bytes o (ground arith),
  half-blank_ne off file_type bytes (o + 2) (ground arith),
)

blank-other :
    (off o file_type : ℕ) (any : Inode) (bytes : Block)
    → (o + 64 ≤ off) ⊎ (off + 64 ≤ o)
    → SameDinode (read_dinode o (blank off file_type bytes) any) (read_dinode o bytes any)
unfolding read_dinode
blank-other off o file_type any bytes h = record {
  file_type = half-blank_ne off file_type bytes o (ground arith);
  major = half-blank_ne off file_type bytes (o + 2) (ground arith);
  minor = half-blank_ne off file_type bytes (o + 4) (ground arith);
  nlink = half-blank_ne off file_type bytes (o + 6) (ground arith);
  size = word-blank_ne off file_type bytes (o + 8) (ground arith);
  addrs = λ j le. word-blank_ne off file_type bytes (o + 12 + 4 * j) (ground arith);
}

-- an inode of a type, with no links and no blocks
abbrev pub new_inode : (file_type : ℕ) → Inode → Inode
new_inode file_type any = record any {
  file_type = file_type;
  major = 0;
  minor = 0;
  nlink = 0;
  size = 0;
  addrs = λ j. 0;
}

read-blank :
    (off file_type : ℕ) (any : Inode) (bytes : Block)
    → file_type < 65536
    → SameDinode (read_dinode off (blank off file_type bytes) any) (new_inode file_type any)
unfolding read_dinode
read-blank off file_type any bytes fits = record {
  file_type = half-put_half_self (clear_dinode 64 off bytes) off file_type fits;
  major = half-blank off file_type bytes (off + 2) (omega arith) (omega arith);
  minor = half-blank off file_type bytes (off + 4) (omega arith) (omega arith);
  nlink = half-blank off file_type bytes (off + 6) (omega arith) (omega arith);
  size = word-blank off file_type bytes (off + 8) (omega arith) (omega arith);
  addrs = λ j le. word-blank off file_type bytes (off + 12 + 4 * j) (omega arith) (omega arith);
}

module _ (sb : Superblock) where
  -- a new inode on the disk, with a reference to its slot
  pub record Made (dev file_type : ℕ) (t : Itable) (refs : List ℕ) (s : Store)
      (r : ℕ × Itable × Store) : Type 0 where
    pub inum : ℕ
    pub stands : (r.1.inodes r.0).dev ≡ dev
    pub stands_for_it : (r.1.inodes r.0).inum ≡ inum
    pub inside : (0 < inum) × (inum < sb.ninodes)
    pub ordered : IsOrdered r.1 (r.0 ∷ refs)
    pub was_free : (any : Inode) → (on_disk sb s inum any).file_type ≡ 0
    pub made : (any : Inode) → SameDinode (on_disk sb r.2 inum any) (new_inode file_type any)
    pub others :
        (any : Inode) (n : ℕ) → inum ≢ n → SameDinode (on_disk sb r.2 n any) (on_disk sb s n any)

  -- every inode that a file can have
  abbrev pub NoneFree : Store → ℕ → Type 0
  NoneFree s limit = (n : ℕ) (any : Inode) → 0 < n → n < limit → (on_disk sb s n any).file_type ≢ 0

  -- what `ialloc` promises
  abbrev pub IsMade :
      (dev file_type : ℕ) → Itable → List ℕ → Store → Run (ℕ × Itable × Store) → Type 0
  IsMade dev file_type t refs s panic =
      NoneFree s sb.ninodes ⊎ ((i : ℕ) → i < ninode → 0 < occurrences i refs)
  IsMade dev file_type t refs s (ok r) = Made dev file_type t refs s r

  blank-others :
      (inum n file_type : ℕ) (any : Inode) (s : Store)
      → inum ≢ n
      → SameDinode
          (on_disk sb
            (keep (iblock sb inum) (blank (dip inum) file_type (s.blocks (iblock sb inum))) s)
            n
            any)
          (on_disk sb s n any)
  unfolding keep
  blank-others inum n file_type any s ne =
      let b = iblock sb inum in
      let bytes = blank (dip inum) file_type (s.blocks b) in
      elim (Bool-cases (b == iblock sb n)) [
        | inl e ↦
            let same : s.blocks b ≡ s.blocks (iblock sb n) = ap s.blocks (ground arith) in
            rw (update_lem s.blocks b (iblock sb n) bytes, e, same)
              (blank-other (dip inum) (dip n) file_type any (s.blocks (iblock sb n)) (ground arith))
        | inr other ↦
            rw (update_lem s.blocks b (iblock sb n) bytes, other)
              (SameDinode-refl (on_disk sb s n any))
      ]

  blank-made :
      (inum file_type : ℕ) (any : Inode) (s : Store)
      → file_type < 65536
      → SameDinode
          (on_disk sb
            (keep (iblock sb inum) (blank (dip inum) file_type (s.blocks (iblock sb inum))) s)
            inum
            any)
          (new_inode file_type any)
  unfolding keep
  blank-made inum file_type any s fits =
      let b = iblock sb inum in
      rw (update_self s.blocks b (blank (dip inum) file_type (s.blocks b)))
        (read-blank (dip inum) file_type any (s.blocks b) fits)

  type-on_disk :
      (inum : ℕ) (any : Inode) (s : Store)
      → (on_disk sb s inum any).file_type ≡ half (s.blocks (iblock sb inum)) (dip inum)
  unfolding read_dinode
  type-on_disk inum any s = refl

  -- from the slot that `iget` finds for inode `inum`
  slot-IsMade :
      (inum dev file_type : ℕ) (t : Itable) (refs : List ℕ) (s : Store) (r : Run (ℕ × Itable))
      → file_type < 65536
      → (0 < inum) × (inum < sb.ninodes)
      → half (s.blocks (iblock sb inum)) (dip inum) ≡ 0
      → IsGot dev inum t refs r
      → IsMade dev file_type t refs s (
          r >>= λ (q : ℕ × Itable). ok (
            q.0,
            q.1,
            keep (iblock sb inum) (blank (dip inum) file_type (s.blocks (iblock sb inum))) s,
          ))
  slot-IsMade inum dev file_type t refs s panic fits range z g = inr (λ i lt. (g i lt).0)
  slot-IsMade inum dev file_type t refs s (ok q) fits range z g = record {
    inum = inum;
    stands = g.1;
    stands_for_it = g.2;
    inside = range;
    ordered = g.3;
    was_free = λ any. type-on_disk inum any s ∙ z;
    made = λ any. blank-made inum file_type any s fits;
    others = λ any n ne. blank-others inum n file_type any s ne;
  }

  ialloc_loop-IsMade :
      (fuel inum dev file_type : ℕ) (t : Itable) (refs : List ℕ) (s : Store)
      → file_type < 65536
      → IsOrdered t refs
      → ((i : ℕ) → occurrences i refs + 1 < 2 ^ 31)
      → 0 < inum
      → sb.ninodes ≤ inum + fuel
      → NoneFree s inum
      → IsMade dev file_type t refs s (ialloc_loop sb fuel inum dev file_type t s)
  unfolding ialloc_loop
  ialloc_loop-IsMade zero inum dev file_type t refs s fits o few pos enough before =
      inl (λ n any n_pos lt. before n any n_pos (omega arith))
  ialloc_loop-IsMade (suc fuel) inum dev file_type t refs s fits o few pos enough before =
      elim (Bool-cases (ltb inum sb.ninodes)) [
        | inr past ↦ rw past (inl (λ n any n_pos lt. before n any n_pos (ground arith)))
        | inl within ↦ elim (Bool-cases (half (s.blocks (iblock sb inum)) (dip inum) == 0)) [
          | inl z ↦
              rw (within, z)
                (slot-IsMade inum dev file_type t refs s (iget dev inum t) fits (pos, ground arith)
                  (ground arith) (iget-IsGot dev inum t refs o few))
          | inr nz ↦
              rw (within, nz)
                (ialloc_loop-IsMade fuel (inum + 1) dev file_type t refs s fits o few (omega arith)
                  (omega arith)
                  (λ n any n_pos lt. elim (Bool-cases (n == inum)) [
                    | inl e ↦
                        let at : n ≡ inum = ground arith in
                        rw at (λ x. absurd (ground (arith, type-on_disk inum any s)))
                    | inr e ↦ before n any n_pos (ground arith)
                  ]))
        ]
      ]

  -- Where the counts are exact and no two inodes in use stand for one file, `ialloc` panics only if
  -- no inode from 1 on is free on the disk, or all slots of the table are in use. Otherwise it
  -- takes an inode that was free on the disk, which has the given type then, no links, no bytes
  -- and no blocks, it changes no other inode on the disk, and it returns a slot for this inode. With
  -- the reference that it gives, the counts are exact and no two inodes in use stand for one file.
  -- The hypotheses on numbers are that the type fits 16 bits and one more reference an `int`.
  pub ialloc-IsMade :
      (dev file_type : ℕ) (t : Itable) (refs : List ℕ) (s : Store)
      → file_type < 65536
      → IsOrdered t refs
      → ((i : ℕ) → occurrences i refs + 1 < 2 ^ 31)
      → IsMade dev file_type t refs s (ialloc sb dev file_type t s)
  unfolding ialloc
  ialloc-IsMade dev file_type t refs s fits o few =
      ialloc_loop-IsMade sb.ninodes 1 dev file_type t refs s fits o few (omega arith) (omega arith)
        (λ n any pos lt. absurd (omega arith))
