-- ===== src/Log/Device.antt =====
-- What log.c needs of kernel/bio.c and of the disk. `cache b` is what a buffer that `bread` returns
-- for block `b` holds: the cached copy, or else the block on the disk. One device.
use risc_v_operating_system.Base.{ℕ, ◌+◌, ◌-◌, ◌^◌, ◌==◌, if◌then◌else◌, update}
use risc_v_operating_system.Base.Word.{u32}

-- The 256 words of a block, by index.
abbrev pub Block : Type 0
Block = ℕ → ℕ

abbrev pub Disk : Type 0
Disk = ℕ → Block

-- `power` is the number of writes to the disk that are still made before the power fails.
pub record Machine : Type 0 where
  pub disk : Disk
  pub cache : Disk
  pub refcnt : ℕ → ℕ
  pub power : ℕ

-- `crashed d`: the power failed, and the disk holds `d`.
pub data Outcome (A : Type 0) : Type 0 where
  done : A → Machine → Outcome A
  crashed : Disk → Outcome A
  panic : Outcome A

abbrev pub Cmd : Type 0 → Type 0
Cmd A = Machine → Outcome A

abbrev pub pure : {A : Type 0} → A → Cmd A
pure = done

abbrev pub and_then : {A B : Type 0} → Outcome A → (A → Cmd B) → Outcome B
and_then (done a m) k = k a m
and_then (crashed d) k = crashed d
and_then panic k = panic

infixl 5 ◌>>=◌ ◌>>◌
abbrev pub ◌>>=◌ : {A B : Type 0} → Cmd A → (A → Cmd B) → Cmd B
c >>= k = λ m. and_then (c m) k

abbrev pub ◌>>◌ : {A B : Type 0} → Cmd A → Cmd B → Cmd B
c >> k = c >>= λ _. k

-- `memmove(dst->data, src->data, BSIZE)` between the buffers of two blocks.
abbrev pub memmove : (dst src : ℕ) → Cmd (Unit {0})
memmove dst src m = done tt (record m { cache = update m.cache dst (m.cache src) })

-- A change of the words of one buffer.
abbrev pub store : ℕ → (Block → Block) → Cmd (Unit {0})
store b f m = done tt (record m { cache = update m.cache b (f (m.cache b)) })

-- `bwrite`: one block goes to the disk whole, or the power fails before it.
unfoldable pub bwrite : ℕ → Cmd (Unit {0})
bwrite b m =
    if m.power == 0
    then crashed m.disk
    else done tt (record m { disk = update m.disk b (m.cache b); power = m.power - 1 })

abbrev pub bpin : ℕ → Cmd (Unit {0})
bpin b m = done tt (record m { refcnt = update m.refcnt b (u32 (m.refcnt b + 1)) })

abbrev pub bunpin : ℕ → Cmd (Unit {0})
bunpin b m = done tt (record m { refcnt = update m.refcnt b (u32 (m.refcnt b + 2 ^ 32 - 1)) })
