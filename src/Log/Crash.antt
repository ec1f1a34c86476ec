-- ===== src/Log/Crash.antt =====
-- What the disk holds when the power fails: nothing of the transaction, or all of it in the log.
use risc_v_operating_system.Base.{
  ℕ, zero, suc, ◌+◌, ◌≤◌, ◌<◌, ◌≡◌, refl, ◌⊎◌, ◌||◌, Bool, true, false, arith, ltb, ◌==◌, inl, inr,
  Bool-cases, if◌then◌else◌,
}
use risc_v_operating_system.Log.Device.{Disk}
use risc_v_operating_system.Log.Header.{HoldsHeader}
use risc_v_operating_system.Log.{Log, log_size}

-- Block `b` is no block of the log's own.
abbrev pub Outside : Log → ℕ → Type 0
Outside l b = (b < l.start) ⊎ (l.start + l.size ≤ b)

-- Block `b` is among the first `n` entries.
unfoldable pub mentions : (ℕ → ℕ) → ℕ → ℕ → Bool
mentions block zero b = false
mentions block (suc n) b = (block n == b) || mentions block n b

-- The home blocks once the transaction is in place: `c` where the header lists a block.
abbrev pub after : Log → (c old : Disk) → Disk
after l c old b = if mentions l.lh.block l.lh.n b then c b else old b

-- The header fits the log, and no entry is a block of the log itself.
pub record WellFormed (l : Log) : Type 0 where
  pub few : l.lh.n ≤ log_size
  pub fits : l.lh.n + 1 ≤ l.size
  pub homes : (i : ℕ) → i < l.lh.n → Outside l (l.lh.block i)

-- The header on the disk is empty, and the home blocks are those of `old`.
pub record Uncommitted (l : Log) (old d : Disk) : Type 0 where
  pub empty : d l.start 0 ≡ 0
  pub kept : (b : ℕ) → Outside l b → d b ≡ old b

-- The header is on the disk, the log holds each block, and no other home block has changed.
pub record Committed (l : Log) (c old d : Disk) : Type 0 where
  pub header : HoldsHeader (d l.start) l.lh.n l.lh.block
  pub copies : (i : ℕ) → i < l.lh.n → d (l.start + i + 1) ≡ c (l.lh.block i)
  pub kept : (b : ℕ) → Outside l b → mentions l.lh.block l.lh.n b ≡ false → d b ≡ old b

pub mentions-index :
    (block : ℕ → ℕ) (n b : ℕ) → mentions block n b ≡ true → (i : ℕ) × (i < n) × (block i ≡ b)
unfolding mentions
mentions-index block zero b h = cc
mentions-index block (suc n) b h = elim (Bool-cases (block n == b)) [
  | inl e ↦ (n, omega arith, ground arith)
  | inr e ↦ let (i, lt, q) = mentions-index block n b (ground arith) in (i, omega arith, q)
]

pub mentions-lt : (block : ℕ → ℕ) (n i : ℕ) → i < n → mentions block n (block i) ≡ true
unfolding mentions
mentions-lt block zero i h = absurd (omega arith)
mentions-lt block (suc n) i h = elim (Bool-cases (i == n)) [
  | inl e ↦ let same : n ≡ i = ground arith in rw same (ground arith)
  | inr e ↦ ground (arith, mentions-lt block n i)
]

pub mentions-congr :
    (block entry : ℕ → ℕ) (n b : ℕ)
    → ((i : ℕ) → i < n → block i ≡ entry i)
    → mentions block n b ≡ mentions entry n b
unfolding mentions
mentions-congr block entry zero b h = refl
mentions-congr block entry (suc n) b h =
    rw (h n (omega arith), mentions-congr block entry n b (λ i lt. h i (omega arith)))

pub mentions-empty : (block : ℕ → ℕ) (n b : ℕ) → ltb 0 n ≡ false → mentions block n b ≡ false
unfolding mentions
mentions-empty block zero b h = refl
mentions-empty block (suc n) b h = ground arith
