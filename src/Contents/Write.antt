-- ===== src/Contents/Write.antt =====
-- `writei` over bytes that a file has, and `readi` after it.
use risc_v_operating_system.Base.{
  ℕ, zero, suc, ◌+◌, ◌-◌, ◌*◌, ◌/◌, ◌%◌, ◌^◌, ◌≤◌, ◌<◌, ◌≡◌, refl, sym, ap, ◌∙◌, ◌≢◌, inl, inr,
  Bool, true, false, arith, ltb, if◌then◌else◌, Bool-cases, ◌>>=◌, Safely, safely, Safely-bind,
  Safely-mono,
}
use risc_v_operating_system.Base.Word.{u32, u64}
use risc_v_operating_system.Fs.{Superblock, Store, bsize}
use risc_v_operating_system.Inode.{Inode, ndirect, nindirect, iblock}
use risc_v_operating_system.Inode.Slots.{slots, slot, IsFile}
use risc_v_operating_system.Contents.{Memory, copied, chunk, either_copyin, writei_loop, writei}
use risc_v_operating_system.Contents.Data.{block_of, content, IsFilled, bmap-present}
use risc_v_operating_system.Contents.Overwrite.{
  Overwritten, Overwritten-more, Overwritten-iupdate, copied-at, copied-nothing,
}
use risc_v_operating_system.Contents.{either_copyout, readi}
use risc_v_operating_system.Contents.Read.{readable, readi-HasRead}

module _ (sb : Superblock)
    (copyin : (at : ℕ) → (src len : ℕ) → Memory → (ℕ → ℕ) → Bool × (ℕ → ℕ)) where
  not_over :
      (ip : Inode) (s : Store) (last : ℕ)
      → IsFilled ip s ip.size
      → last ≤ ip.size
      → ltb ((ndirect + nindirect) * bsize) last ≡ false
  not_over ip s last filled le = elim (Bool-cases (ltb ((ndirect + nindirect) * bsize) last)) [
    | inr fits ↦ fits
    | inl over ↦
        let past = filled ((ndirect + nindirect) * bsize) (ground arith) in
        absurd (omega (arith, past.0))
  ]

  -- what the loop of `writei` leaves
  record Wrote (ip : Inode) (s : Store) (off src n : ℕ) (mem : Memory) (r : ℕ × ℕ × Inode × Store)
      : Type 0 where
    tot : r.0 ≡ n
    end_ : r.1 ≡ off + n
    inode : r.2 ≡ ip
    store : Overwritten ip s off src n mem r.3

  writei_loop-Wrote :
      (fuel : ℕ) (user_src : Bool) (tot n off src : ℕ) (ip : Inode) (s s' : Store) (mem : Memory)
      → ((at from len : ℕ) (m : Memory) (bytes : ℕ → ℕ)
          → either_copyin copyin at user_src from len m bytes
            ≡ (true, copied at (λ j. m (from + j)) len bytes))
      → IsFile sb ip s
      → IsFilled ip s ip.size
      → tot ≤ n
      → n < tot + fuel
      → off + n ≤ ip.size
      → off + n < 2 ^ 32
      → src + n < 2 ^ 64
      → Overwritten ip s off src tot mem s'
      → Safely
          (Wrote ip s off src n mem)
          (writei_loop copyin sb fuel user_src tot n (off + tot) (src + tot) ip s' mem)
  unfolding writei_loop
  writei_loop-Wrote zero user_src tot n off src ip s s' mem works f filled le enough inside off_fits
        src_fits w =
      absurd (omega arith)
  writei_loop-Wrote (suc fuel) user_src tot n off src ip s s' mem works f filled le enough inside
        off_fits src_fits w =
      elim (Bool-cases (ltb tot n)) [
        | inr done ↦
            let all : tot ≡ n = ground arith in
            rw done (
              safely (record {
                tot = all;
                end_ = ap (λ t. off + t) all;
                inode = refl;
                store = rw all at w;
              }))
        | inl more ↦
            let q = (off + tot) / bsize in
            let at = filled (off + tot) (ground arith) in
            let same : block_of ip s' q ≡ block_of ip s q =
              w.list (if ltb q ndirect then q else q + 1) in
            let nz : block_of ip s' q ≢ 0 = λ z. at.1 (sym same ∙ z) in
            let m = chunk tot n (off + tot) in
            rw (more, bmap-present sb q ip s' at.0 nz)
              (let m_le : tot + m ≤ n = ground arith in
                let m_fits : m ≤ bsize - (off + tot) % bsize = ground arith in
                let some_byte : 0 < m = ground arith in
                let tot' : u32 (tot + m) ≡ tot + m = omega arith in
                let off' : u32 (off + tot + m) ≡ off + (tot + m) = omega arith in
                let src' : u64 (src + tot + m) ≡ src + (tot + m) = omega arith in
                rw
                  (
                    works ((off + tot) % bsize) (src + tot) m mem (s'.blocks (block_of ip s' q)),
                    tot',
                    off',
                    src',
                  )
                  (writei_loop-Wrote fuel user_src (tot + m) n off src ip s _ mem works f filled
                    m_le (omega arith) inside off_fits src_fits
                    (Overwritten-more sb ip s s' off src tot m mem f filled (omega arith) some_byte
                      m_fits w)))
      ]

  -- `writei` over bytes that a file has returns their number, does not change the inode, and leaves
  -- the file with the new bytes in their place, and all its other bytes and its blocks as before.
  -- The hypotheses are that the file's blocks are in order and there for all its bytes, that the
  -- inode's own block is none of them, that copying from the source succeeds, and that `off + n` and
  -- the addresses fit their types.
  pub writei-Overwritten :
      (user_src : Bool) (src off n : ℕ) (ip : Inode) (s : Store) (mem : Memory)
      → ((at from len : ℕ) (m : Memory) (bytes : ℕ → ℕ)
          → either_copyin copyin at user_src from len m bytes
            ≡ (true, copied at (λ j. m (from + j)) len bytes))
      → IsFile sb ip s
      → IsFilled ip s ip.size
      → ((k : ℕ) → k < slots → slot ip s k ≢ iblock sb ip.inum)
      → off + n ≤ ip.size
      → off + n < 2 ^ 32
      → src + n < 2 ^ 64
      → Safely
          (λ r. (r.0 ≡ n) × (r.1 ≡ ip) × Overwritten ip s off src n mem r.2)
          (writei copyin sb user_src src off n ip s mem)
  unfolding writei
  writei-Overwritten user_src src off n ip s mem works f filled apart inside off_fits src_fits =
      let sum : u32 (off + n) ≡ off + n = omega arith in
      let off0 : off + 0 ≡ off = omega arith in
      let src0 : src + 0 ≡ src = omega arith in
      let go =
        writei_loop-Wrote (n + 1) user_src 0 n off src ip s s mem works f filled (omega arith)
          (omega arith) inside off_fits src_fits
          (record {
            list = λ k. refl;
            bytes = λ i lt. copied-nothing off (λ j. mem (src + j)) (content ip s) i;
          }) in
      let not_past : ltb ip.size off ≡ false = ground arith in
      let no_wrap : ltb (off + n) off ≡ false = ground arith in
      let not_large : ltb ((ndirect + nindirect) * bsize) (off + n) ≡ false =
        not_over ip s (off + n) filled inside in
      rw (sum, not_past, no_wrap, not_large)
        (Safely-bind (rw (off0, src0) at go) (λ r w.
          let size : r.2.size ≡ ip.size = ap (λ (jp : Inode). jp.size) w.inode in
          let stays : ltb r.2.size r.1 ≡ false = ground (arith, w.end_, size) in
          let written = Overwritten-iupdate sb ip s r.3 off src n mem filled apart w.store in
          rw stays (safely (w.tot, w.inode, rw w.inode written))))

-- What `writei` puts over bytes of a file, `readi` reads there: the memory at `dst` holds then what
-- the memory at `src` held, byte by byte. The hypotheses are those of `writei`, and that copying to
-- the destination succeeds.
pub readi-writei :
    (sb : Superblock) (copyin : (at : ℕ) → (src len : ℕ) → Memory → (ℕ → ℕ) → Bool × (ℕ → ℕ))
    (copyout : (dst : ℕ) → (from : ℕ → ℕ) → (len : ℕ) → Memory → Bool × Memory)
    (user_src user_dst : Bool) (src dst off n : ℕ) (ip : Inode) (s : Store) (mem mem' : Memory)
    → ((at from len : ℕ) (m : Memory) (bytes : ℕ → ℕ)
        → either_copyin copyin at user_src from len m bytes
          ≡ (true, copied at (λ j. m (from + j)) len bytes))
    → ((d : ℕ) (from : ℕ → ℕ) (len : ℕ) (m : Memory)
        → either_copyout copyout user_dst d from len m ≡ (true, copied d from len m))
    → IsFile sb ip s
    → IsFilled ip s ip.size
    → ((k : ℕ) → k < slots → slot ip s k ≢ iblock sb ip.inum)
    → off + n ≤ ip.size
    → off + n < 2 ^ 32
    → src + n < 2 ^ 64
    → dst + n < 2 ^ 64
    → Safely
        (λ r. (r.0 ≡ n) × ((i : ℕ) → i < n → r.1 (dst + i) ≡ mem (src + i)))
        (writei copyin sb user_src src off n ip s mem >>= λ (w : ℕ × Inode × Store).
          readi copyout sb user_dst dst off n w.1 w.2 mem')
readi-writei sb copyin copyout user_src user_dst src dst off n ip s mem mem' works_in works_out f
      filled apart inside off_fits src_fits dst_fits =
    Safely-bind
      (writei-Overwritten sb copyin user_src src off n ip s mem works_in f filled apart inside
        off_fits src_fits)
      (λ w h.
        let filled' : IsFilled ip w.2 ip.size = λ i lt.
          let there = filled i lt in
          let same = h.2.list (if ltb (i / bsize) ndirect then i / bsize else i / bsize + 1) in
          (there.0, λ z. there.1 (sym same ∙ z)) in
        let all : readable ip.size off n ≡ n = ground arith in
        let read =
          readi-HasRead sb copyout user_dst dst off n ip w.2 mem' works_out off_fits dst_fits
            filled' in
        rw h.1 (
          Safely-mono read (λ r p. (
            p.count ∙ all,
            λ i lt.
                p.memory (dst + i)
                ∙ (copied-at dst (λ j. content ip w.2 (off + j)) (readable ip.size off n) mem' i
                      (omega (arith, all))
                    ∙ h.2.bytes (off + i) (omega arith)
                    ∙ copied-at off (λ j. mem (src + j)) n (content ip s) i lt),
          ))))
