-- ===== src/Itable/Counts.antt =====
-- What holds of the inode table between its operations.
use risc_v_operating_system.Base.{
  ℕ, ◌+◌, ◌^◌, ◌<◌, ◌≡◌, sym, ap, ◌∙◌, ◌≢◌, inl, inr, List, ◌∷◌, arith, ◌==◌, Bool-cases,
  occurrences, update_self, update_ne,
}
use risc_v_operating_system.Base.{RefCounts, RefCounts-change}
use risc_v_operating_system.Base.Word.{u32}
use risc_v_operating_system.Inode.{Inode}
use risc_v_operating_system.Itable.{Itable, ninode, idup}

-- Each inode counts the references to it, and no two inodes in use stand for one file.
pub record IsOrdered (t : Itable) (refs : List ℕ) : Type 0 where
  pub counts : RefCounts ninode (λ i. (t.inodes i).ref) refs
  pub unique :
      (i j : ℕ)
      → (t.inodes i).ref ≢ 0
      → (t.inodes j).ref ≢ 0
      → (t.inodes i).dev ≡ (t.inodes j).dev
      → (t.inodes i).inum ≡ (t.inodes j).inum
      → i ≡ j

-- An inode in use gets another count, and stays what it stands for.
pub recount-IsOrdered :
    (t t' : Itable) (refs refs' : List ℕ) (i : ℕ)
    → IsOrdered t refs
    → i < ninode
    → (t.inodes i).ref ≢ 0
    → (t'.inodes i).dev ≡ (t.inodes i).dev
    → (t'.inodes i).inum ≡ (t.inodes i).inum
    → (t'.inodes i).ref ≡ occurrences i refs'
    → occurrences i refs' < 2 ^ 31
    → ((j : ℕ) → i ≢ j → t'.inodes j ≡ t.inodes j)
    → ((j : ℕ) → i ≢ j → occurrences j refs' ≡ occurrences j refs)
    → IsOrdered t' refs'
recount-IsOrdered t t' refs refs' i o lt used_before dev inum ref fits same others = record {
  counts =
      RefCounts-change (λ j. (t'.inodes j).ref) refs' i o.counts lt ref fits
        (λ j ne. (ap (λ (ip : Inode). ip.ref) (same j ne), others j ne));
  unique = λ a b ra rb d n.
      let pa = before a ra in
      let pb = before b rb in o.unique a b pa.0 pb.0 (sym pa.1 ∙ d ∙ pb.1) (sym pa.2 ∙ n ∙ pb.2);
}
  where
    before :
        (a : ℕ)
        → (t'.inodes a).ref ≢ 0
        → ((t.inodes a).ref ≢ 0)
          × ((t'.inodes a).dev ≡ (t.inodes a).dev)
          × ((t'.inodes a).inum ≡ (t.inodes a).inum)
    before a ra = elim (Bool-cases (i == a)) [
      | inl e ↦
          let at : i ≡ a = ground arith in
          let all : ((t.inodes i).ref ≢ 0)
              × ((t'.inodes i).dev ≡ (t.inodes i).dev)
              × ((t'.inodes i).inum ≡ (t.inodes i).inum) =
            (used_before, dev, inum) in
          rw at at all
      | inr e ↦
          let s = same a (ground arith) in
          (
            λ z. ra (ap (λ (ip : Inode). ip.ref) s ∙ z),
            ap (λ (ip : Inode). ip.dev) s,
            ap (λ (ip : Inode). ip.inum) s,
          )
    ]

-- One more reference to an inode in use leaves the table in order.
pub idup-IsOrdered :
    (t : Itable) (refs : List ℕ) (i : ℕ)
    → IsOrdered t refs
    → 0 < occurrences i refs
    → occurrences i refs + 1 < 2 ^ 31
    → IsOrdered (idup i t) (i ∷ refs)
unfolding idup
idup-IsOrdered t refs i o h fits =
    let exact = o.counts.exact i in
    let more : Inode = record (t.inodes i) { ref = u32 ((t.inodes i).ref + 1) } in
    let here = update_self t.inodes i more in
    let ref : u32 ((t.inodes i).ref + 1) ≡ occurrences i (i ∷ refs) = ground (arith, exact) in
    recount-IsOrdered t (idup i t) refs (i ∷ refs) i o (ground (arith, o.counts.inside i))
      (ground (arith, exact)) (ap (λ (ip : Inode). ip.dev) here) (ap (λ (ip : Inode). ip.inum) here)
      (ap (λ (ip : Inode). ip.ref) here ∙ ref) (ground arith)
      (λ j ne. update_ne t.inodes i j more ne) (λ j ne. ground arith)
