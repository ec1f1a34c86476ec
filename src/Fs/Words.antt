-- ===== src/Fs/Words.antt =====
-- The `short` and `uint` values in the bytes of a block, the lowest byte first.
use risc_v_operating_system.Base.{
  ℕ, ◌+◌, ◌*◌, ◌/◌, ◌%◌, ◌^◌, ◌≤◌, ◌<◌, ◌≡◌, ◌∙◌, ◌⊎◌, inl, arith, ◌==◌, if◌then◌else◌, update,
  update_lem,
}
use risc_v_operating_system.Fs.{Block}

abbrev pub half : Block → ℕ → ℕ
half bytes off = bytes off + 256 * bytes (off + 1)

abbrev pub word : Block → ℕ → ℕ
word bytes off = half bytes off + 65536 * half bytes (off + 2)

unfoldable pub put_half : Block → (off v : ℕ) → Block
put_half bytes off v = update (update bytes off (v % 256)) (off + 1) (v / 256 % 256)

unfoldable pub put_word : Block → (off v : ℕ) → Block
put_word bytes off v = put_half (put_half bytes off (v % 65536)) (off + 2) (v / 65536)

pub put_half_lem :
    (bytes : Block) (off v a : ℕ)
    → put_half bytes off v a
      ≡ (if a == off then v % 256 else if a == off + 1 then v / 256 % 256 else bytes a)
unfolding put_half
put_half_lem bytes off v a = ground (
  arith,
  update_lem (update bytes off (v % 256)) (off + 1) a (v / 256 % 256),
  update_lem bytes off a (v % 256),
)

pub half-put_half_self :
    (bytes : Block) (off v : ℕ) → v < 65536 → half (put_half bytes off v) off ≡ v
half-put_half_self bytes off v h =
    ground (arith, put_half_lem bytes off v off, put_half_lem bytes off v (off + 1))

pub half-put_half_ne :
    (bytes : Block) (off v o : ℕ)
    → (o + 2 ≤ off) ⊎ (off + 2 ≤ o)
    → half (put_half bytes off v) o ≡ half bytes o
half-put_half_ne bytes off v o h =
    ground (arith, put_half_lem bytes off v o, put_half_lem bytes off v (o + 1))

pub word-put_half_ne :
    (bytes : Block) (off v o : ℕ)
    → (o + 4 ≤ off) ⊎ (off + 2 ≤ o)
    → word (put_half bytes off v) o ≡ word bytes o
word-put_half_ne bytes off v o h = ground (
  arith,
  half-put_half_ne bytes off v o (ground arith),
  half-put_half_ne bytes off v (o + 2) (ground arith),
)

pub word-put_word_self :
    (bytes : Block) (off v : ℕ) → v < 2 ^ 32 → word (put_word bytes off v) off ≡ v
unfolding put_word
word-put_word_self bytes off v h =
    let low = put_half bytes off (v % 65536) in
    omega (
      arith,
      half-put_half_ne low (off + 2) (v / 65536) off (inl (omega arith)),
      half-put_half_self bytes off (v % 65536) (omega arith),
      half-put_half_self low (off + 2) (v / 65536) (omega arith),
    )

pub half-put_word_ne :
    (bytes : Block) (off v o : ℕ)
    → (o + 2 ≤ off) ⊎ (off + 4 ≤ o)
    → half (put_word bytes off v) o ≡ half bytes o
unfolding put_word
half-put_word_ne bytes off v o h =
    half-put_half_ne (put_half bytes off (v % 65536)) (off + 2) (v / 65536) o (ground arith)
    ∙ half-put_half_ne bytes off (v % 65536) o (ground arith)

pub word-put_word_ne :
    (bytes : Block) (off v o : ℕ)
    → (o + 4 ≤ off) ⊎ (off + 4 ≤ o)
    → word (put_word bytes off v) o ≡ word bytes o
word-put_word_ne bytes off v o h = ground (
  arith,
  half-put_word_ne bytes off v o (ground arith),
  half-put_word_ne bytes off v (o + 2) (ground arith),
)

-- A block of zeros holds the value 0 everywhere.
pub word_zeros : (bytes : Block) (off : ℕ) → ((i : ℕ) → bytes i ≡ 0) → word bytes off ≡ 0
word_zeros bytes off h = omega (arith, h off, h (off + 1), h (off + 2), h (off + 2 + 1))

pub word-eq : (f g : Block) (off : ℕ) → ((i : ℕ) → f i ≡ g i) → word f off ≡ word g off
word-eq f g off h = omega (arith, h off, h (off + 1), h (off + 2), h (off + 2 + 1))
