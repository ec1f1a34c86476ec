-- ===== src/Inode/Disk.antt =====
-- What `iupdate` writes, `ilock` reads.
use risc_v_operating_system.Base.{
  ℕ, zero, suc, ◌+◌, ◌*◌, ◌^◌, ◌≤◌, ◌<◌, ◌≡◌, refl, sym, ap, ◌∙◌, ◌≢◌, ◌⊎◌, inl, inr, arith, ◌==◌,
  Bool-cases, update_self, update_ne, update_lem,
}
use risc_v_operating_system.Fs.{Superblock, Block, Store, keep}
use risc_v_operating_system.Fs.Words.{
  half, word, put_half, put_word, half-put_half_self, half-put_half_ne, word-put_word_self,
  half-put_word_ne,
}
use risc_v_operating_system.Inode.{
  Inode, ndirect, iblock, dip, write_addrs, write_dinode, read_dinode, iupdate,
}

-- The fields fit their types on the disk.
pub record Fits (ip : Inode) : Type 0 where
  pub file_type : ip.file_type < 65536
  pub major : ip.major < 65536
  pub minor : ip.minor < 65536
  pub nlink : ip.nlink < 65536
  pub size : ip.size < 2 ^ 32
  pub addrs : (j : ℕ) → ip.addrs j < 2 ^ 32

-- the same metadata
pub record SameDinode (a b : Inode) : Type 0 where
  pub file_type : a.file_type ≡ b.file_type
  pub major : a.major ≡ b.major
  pub minor : a.minor ≡ b.minor
  pub nlink : a.nlink ≡ b.nlink
  pub size : a.size ≡ b.size
  pub addrs : (j : ℕ) → j ≤ ndirect → a.addrs j ≡ b.addrs j

write_addrs-half_ne :
    (rounds j off : ℕ) (addrs : ℕ → ℕ) (bytes : Block) (o : ℕ)
    → (o + 2 ≤ off + 12 + 4 * j) ⊎ (off + 12 + 4 * (j + rounds) ≤ o)
    → half (write_addrs rounds j off addrs bytes) o ≡ half bytes o
unfolding write_addrs
write_addrs-half_ne zero j off addrs bytes o h = refl
write_addrs-half_ne (suc rounds) j off addrs bytes o h =
    write_addrs-half_ne rounds (j + 1) off addrs _ o (ground arith)
    ∙ half-put_word_ne bytes (off + 12 + 4 * j) (addrs j) o (ground arith)

write_addrs-word_ne :
    (rounds j off : ℕ) (addrs : ℕ → ℕ) (bytes : Block) (o : ℕ)
    → (o + 4 ≤ off + 12 + 4 * j) ⊎ (off + 12 + 4 * (j + rounds) ≤ o)
    → word (write_addrs rounds j off addrs bytes) o ≡ word bytes o
write_addrs-word_ne rounds j off addrs bytes o h = ground (
  arith,
  write_addrs-half_ne rounds j off addrs bytes o (ground arith),
  write_addrs-half_ne rounds j off addrs bytes (o + 2) (ground arith),
)

write_addrs_lem :
    (rounds j off : ℕ) (addrs : ℕ → ℕ) (bytes : Block) (k : ℕ)
    → j ≤ k
    → k < j + rounds
    → addrs k < 2 ^ 32
    → word (write_addrs rounds j off addrs bytes) (off + 12 + 4 * k) ≡ addrs k
unfolding write_addrs
write_addrs_lem zero j off addrs bytes k le lt fits = absurd (omega arith)
write_addrs_lem (suc rounds) j off addrs bytes k le lt fits = elim (Bool-cases (j == k)) [
  | inl e ↦
      let same : j ≡ k = ground arith in
      let kept =
        write_addrs-word_ne rounds (j + 1) off addrs (put_word bytes (off + 12 + 4 * j) (addrs j))
          (off + 12 + 4 * k) (inl (omega arith)) in
      kept ∙ rw same (word-put_word_self bytes (off + 12 + 4 * k) (addrs k) fits)
  | inr ne ↦ write_addrs_lem rounds (j + 1) off addrs _ k (ground arith) (omega arith) fits
]

-- A field of another inode, or of none: 64 bytes from `off` on are written.
write_dinode-half_ne :
    (off : ℕ) (ip : Inode) (bytes : Block) (o : ℕ)
    → (o + 2 ≤ off) ⊎ (off + 64 ≤ o)
    → half (write_dinode off ip bytes) o ≡ half bytes o
unfolding write_dinode
write_dinode-half_ne off ip bytes o h =
    write_addrs-half_ne 13 0 off ip.addrs _ o (ground arith)
    ∙ half-put_word_ne _ (off + 8) ip.size o (ground arith)
    ∙ half-put_half_ne _ (off + 6) ip.nlink o (ground arith)
    ∙ half-put_half_ne _ (off + 4) ip.minor o (ground arith)
    ∙ half-put_half_ne _ (off + 2) ip.major o (ground arith)
    ∙ half-put_half_ne bytes off ip.file_type o (ground arith)

write_dinode-word_ne :
    (off : ℕ) (ip : Inode) (bytes : Block) (o : ℕ)
    → (o + 4 ≤ off) ⊎ (off + 64 ≤ o)
    → word (write_dinode off ip bytes) o ≡ word bytes o
write_dinode-word_ne off ip bytes o h = ground (
  arith,
  write_dinode-half_ne off ip bytes o (ground arith),
  write_dinode-half_ne off ip bytes (o + 2) (ground arith),
)

-- the type alone
pub write_dinode-file_type :
    (off : ℕ) (ip : Inode) (bytes : Block)
    → ip.file_type < 65536
    → half (write_dinode off ip bytes) off ≡ ip.file_type
unfolding write_dinode
write_dinode-file_type off ip bytes fits =
    write_addrs-half_ne 13 0 off ip.addrs _ off (inl (omega arith))
    ∙ half-put_word_ne _ (off + 8) ip.size off (inl (omega arith))
    ∙ half-put_half_ne _ (off + 6) ip.nlink off (inl (omega arith))
    ∙ half-put_half_ne _ (off + 4) ip.minor off (inl (omega arith))
    ∙ half-put_half_ne _ (off + 2) ip.major off (inl (omega arith))
    ∙ half-put_half_self bytes off ip.file_type fits

read-write_dinode :
    (off : ℕ) (ip old : Inode) (bytes : Block)
    → Fits ip
    → SameDinode (read_dinode off (write_dinode off ip bytes) old) ip
unfolding read_dinode write_dinode
read-write_dinode off ip old bytes f =
    let b1 = put_half bytes off ip.file_type in
    let b2 = put_half b1 (off + 2) ip.major in
    let b3 = put_half b2 (off + 4) ip.minor in
    let b4 = put_half b3 (off + 6) ip.nlink in
    let b5 = put_word b4 (off + 8) ip.size in
    record {
      file_type = write_dinode-file_type off ip bytes f.file_type;
      major =
          write_addrs-half_ne 13 0 off ip.addrs b5 (off + 2) (inl (omega arith))
          ∙ half-put_word_ne b4 (off + 8) ip.size (off + 2) (inl (omega arith))
          ∙ half-put_half_ne b3 (off + 6) ip.nlink (off + 2) (inl (omega arith))
          ∙ half-put_half_ne b2 (off + 4) ip.minor (off + 2) (inl (omega arith))
          ∙ half-put_half_self b1 (off + 2) ip.major f.major;
      minor =
          write_addrs-half_ne 13 0 off ip.addrs b5 (off + 4) (inl (omega arith))
          ∙ half-put_word_ne b4 (off + 8) ip.size (off + 4) (inl (omega arith))
          ∙ half-put_half_ne b3 (off + 6) ip.nlink (off + 4) (inl (omega arith))
          ∙ half-put_half_self b2 (off + 4) ip.minor f.minor;
      nlink =
          write_addrs-half_ne 13 0 off ip.addrs b5 (off + 6) (inl (omega arith))
          ∙ half-put_word_ne b4 (off + 8) ip.size (off + 6) (inl (omega arith))
          ∙ half-put_half_self b3 (off + 6) ip.nlink f.nlink;
      size =
          write_addrs-word_ne 13 0 off ip.addrs b5 (off + 8) (inl (omega arith))
          ∙ word-put_word_self b4 (off + 8) ip.size f.size;
      addrs =
          λ j le. write_addrs_lem 13 0 off ip.addrs b5 j (omega arith) (omega arith) (f.addrs j);
    }

write_dinode-other :
    (off o : ℕ) (ip any : Inode) (bytes : Block)
    → (o + 64 ≤ off) ⊎ (off + 64 ≤ o)
    → SameDinode (read_dinode o (write_dinode off ip bytes) any) (read_dinode o bytes any)
unfolding read_dinode
write_dinode-other off o ip any bytes h = record {
  file_type = write_dinode-half_ne off ip bytes o (ground arith);
  major = write_dinode-half_ne off ip bytes (o + 2) (ground arith);
  minor = write_dinode-half_ne off ip bytes (o + 4) (ground arith);
  nlink = write_dinode-half_ne off ip bytes (o + 6) (ground arith);
  size = write_dinode-word_ne off ip bytes (o + 8) (ground arith);
  addrs = λ j le. write_dinode-word_ne off ip bytes (o + 12 + 4 * j) (ground arith);
}

pub SameDinode-refl : (a : Inode) → SameDinode a a
SameDinode-refl a = record {
  file_type = refl;
  major = refl;
  minor = refl;
  nlink = refl;
  size = refl;
  addrs = λ j le. refl;
}

module _ (sb : Superblock) where
  -- the inode with the number `inum` on the disk
  abbrev pub on_disk : Store → ℕ → Inode → Inode
  on_disk s inum ip = read_dinode (dip inum) (s.blocks (iblock sb inum)) ip

  -- `iupdate` puts an inode whose fields fit their types on the disk as it is in memory, leaves
  -- every other inode there as it was, and changes no block but its own.
  pub iupdate-SameDinode :
      (ip any : Inode) (s : Store)
      → Fits ip
      → SameDinode (on_disk (iupdate sb ip s) ip.inum any) ip
        × ((i : ℕ) → i ≢ ip.inum → SameDinode (on_disk (iupdate sb ip s) i any) (on_disk s i any))
        × ((b : ℕ) → b ≢ iblock sb ip.inum → (iupdate sb ip s).blocks b ≡ s.blocks b)
  unfolding iupdate keep
  iupdate-SameDinode ip any s f =
      let b = iblock sb ip.inum in
      let bytes = write_dinode (dip ip.inum) ip (s.blocks b) in
      (
        rw (update_self s.blocks b bytes) (read-write_dinode (dip ip.inum) ip any (s.blocks b) f),
        λ i ne. elim (Bool-cases (b == iblock sb i)) [
          | inl e ↦
              let same : s.blocks b ≡ s.blocks (iblock sb i) = ap s.blocks (ground arith) in
              rw (update_lem s.blocks b (iblock sb i) bytes, e, same)
                (write_dinode-other (dip ip.inum) (dip i) ip any (s.blocks (iblock sb i))
                  (ground arith))
          | inr other ↦
              rw (update_lem s.blocks b (iblock sb i) bytes, other)
                (SameDinode-refl (on_disk s i any))
        ],
        λ c ne. update_ne s.blocks b c bytes (λ e. ne (sym e)),
      )
