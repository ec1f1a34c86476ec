-- ===== src/Log/Absorb.antt =====
-- `log_write`: which blocks the header lists afterwards, and which buffer is pinned.
use risc_v_operating_system.Base.{
  ℕ, zero, suc, ◌+◌, ◌-◌, ◌≤◌, ◌<◌, ◌≡◌, ◌≢◌, refl, sym, ap, ◌∙◌, ◌||◌, true, false, arith, ltb,
  leb, ◌==◌, inl, inr, Bool-cases, if◌then◌else◌, update, update_self, update_ne,
}
use native.Mathlib.Numerals.{add-one}
use risc_v_operating_system.Base.Word.{u32}
use risc_v_operating_system.Log.Device.{Machine}
use risc_v_operating_system.Log.Ends.{Ends, ended}
use risc_v_operating_system.Log.Crash.{
  Outside, mentions, WellFormed, mentions-index, mentions-lt, mentions-congr,
}
use risc_v_operating_system.Log.{Log, log_size, find_entry, log_write}

ltb-false : (a b : ℕ) → ltb a b ≡ false → b ≤ a
ltb-false a b h = ground arith

-- Where the search of `log_write` stops.
record Found (block : ℕ → ℕ) (b n i r : ℕ) : Type 0 where
  low : i ≤ r
  high : r ≤ n
  before : (j : ℕ) → i ≤ j → j < r → block j ≢ b
  hit : r < n → block r ≡ b

find_entry-Found :
    (block : ℕ → ℕ) (b rounds i n : ℕ)
    → rounds + i ≡ n
    → Found block b n i (find_entry block b rounds i)
unfolding find_entry
find_entry-Found block b zero i n e = record {
  low = omega arith;
  high = omega arith;
  before = λ j p q. absurd (omega arith);
  hit = λ h. absurd (omega arith);
}
find_entry-Found block b (suc rounds) i n e = elim (Bool-cases (block i == b)) [
  | inl same ↦ rw same (record {
    low = omega arith;
    high = omega arith;
    before = λ j p q. absurd (omega arith);
    hit = λ h. ground arith;
  })
  | inr other ↦ rw other (further other (find_entry-Found block b rounds (i + 1) n (omega arith)))
]
  where
    further :
        (block i == b) ≡ false
        → Found block b n (i + 1) (find_entry block b rounds (i + 1))
        → Found block b n i (find_entry block b rounds (i + 1))
    further other f = record {
      low = omega (arith, f.low);
      high = f.high;
      before = λ j p q. elim (Bool-cases (j == i)) [
        | inl same ↦ ground arith
        | inr ne ↦ f.before j (ground arith) q
      ];
      hit = f.hit;
    }

module _ (block : ℕ → ℕ) (b n : ℕ) where
  abbrev stop : ℕ
  stop = find_entry block b n 0

  found : Found block b n 0 stop
  found = find_entry-Found block b n 0 n (omega arith)

  find_entry-miss : mentions block n b ≡ false → stop ≡ n
  find_entry-miss absent = elim (Bool-cases (ltb stop n)) [
    | inl early ↦
        let lt : stop < n = ground arith in
        ground (arith, mentions-lt block n stop lt, ap (mentions block n) (found.hit lt))
    | inr late ↦ omega (arith, found.high, ltb-false stop n late)
  ]

  find_entry-hit : mentions block n b ≡ true → (stop < n) × (block stop ≡ b)
  find_entry-hit listed =
      let (i, lt, e) = mentions-index block n b listed in
      elim (Bool-cases (ltb stop n)) [
        | inl early ↦ let h : stop < n = ground arith in (h, found.hit h)
        | inr late ↦ absurd (found.before i (omega arith) (omega (arith, ltb-false stop n late)) e)
      ]

-- Writing the block over its own entry changes no entry.
mentions-rewrite :
    (block : ℕ → ℕ) (b n i x : ℕ)
    → i < n
    → block i ≡ b
    → mentions (update block i b) n x ≡ ((b == x) || mentions block n x)
mentions-rewrite block b n i x lt e = elim (Bool-cases (b == x)) [
  | inl same ↦ ground (arith, here, unchanged)
  | inr other ↦ rw other unchanged
]
  where
    unchanged : mentions (update block i b) n x ≡ mentions block n x
    unchanged = mentions-congr (update block i b) block n x λ j _. elim (Bool-cases (i == j)) [
      | inl same ↦ let q : i ≡ j = ground arith in rw (← q) (update_self block i b ∙ sym e)
      | inr other ↦ update_ne block i j b (ground arith)
    ]

    here : mentions block n b ≡ true
    here = ground (arith, mentions-lt block n i lt)

mentions-extend :
    (block : ℕ → ℕ) (b n x : ℕ)
    → mentions (update block n b) (n + 1) x ≡ ((b == x) || mentions block n x)
unfolding mentions
mentions-extend block b n x = rw (
  add-one,
  update_self block n b,
  mentions-congr (update block n b) block n x (λ j lt. update_ne block n j b (omega arith)),
)

-- What `log_write` makes of a log `l` and a device `m`, for block `b`.
pub record Logged (l : Log) (m : Machine) (b : ℕ) (l' : Log) (m' : Machine) : Type 0 where
  pub wf : WellFormed l'
  pub listed : (x : ℕ) → mentions l'.lh.block l'.lh.n x ≡ ((b == x) || mentions l.lh.block l.lh.n x)
  pub count : l'.lh.n ≡ l.lh.n + (if mentions l.lh.block l.lh.n b then 0 else 1)
  pub pins :
      m'.refcnt b ≡ (if mentions l.lh.block l.lh.n b then m.refcnt b else u32 (m.refcnt b + 1))
  pub other_pins : (x : ℕ) → x ≢ b → m'.refcnt x ≡ m.refcnt x
  pub disk : m'.disk ≡ m.disk
  pub cache : m'.cache ≡ m.cache

Outside-update :
    (l : Log) (block : ℕ → ℕ) (k b i : ℕ)
    → Outside l b
    → (k ≢ i → Outside l (block i))
    → Outside l (update block k b i)
Outside-update l block k b i o rest = elim (Bool-cases (k == i)) [
  | inl same ↦ let q : k ≡ i = ground arith in rw (← q, update_self block k b) o
  | inr other ↦ let q : k ≢ i = ground arith in rw (update_ne block k i b q) (rest q)
]

module _ (l : Log) (m : Machine) (b : ℕ) (wf : WellFormed l) (o : Outside l b)
    (room : l.lh.n < log_size) (fits : l.lh.n + 1 < l.size) (inside : 0 < l.outstanding) where
  open l.lh use {n, block}

  no_panic : (leb log_size n || leb (l.size - 1) n) ≡ false
  no_panic = ground arith

  in_operation : ltb l.outstanding 1 ≡ false
  in_operation = ground arith

  absorbed : mentions block n b ≡ true → Ends (Logged l m b) (λ _. ⊥) (log_write b l m)
  unfolding log_write
  absorbed old =
      let (early, hit) = find_entry-hit block b n old in
      let differs : (find_entry block b n 0 == n) ≡ false = ground arith in
      rw (no_panic, in_operation, differs)
        (ended (record {
          wf = record {
            few = wf.few;
            fits = wf.fits;
            homes = λ i lt. Outside-update l block _ b i o (λ _. wf.homes i lt);
          };
          listed = λ x. mentions-rewrite block b n _ x early hit;
          count = rw old (omega arith);
          pins = rw old;
          other_pins = λ x ne. refl;
          disk = refl;
          cache = refl;
        }))

  added : mentions block n b ≡ false → Ends (Logged l m b) (λ _. ⊥) (log_write b l m)
  unfolding log_write
  added new =
      let same : (n == n) ≡ true = ground arith in
      rw (no_panic, in_operation, find_entry-miss block b n new, same)
        (ended (record {
          wf = record {
            few = omega arith;
            fits = omega arith;
            homes = λ i lt. Outside-update l block n b i o (λ ne. wf.homes i (omega arith));
          };
          listed = λ x. mentions-extend block b n x;
          count = rw new;
          pins = rw new (update_self m.refcnt b _);
          other_pins = λ x ne. update_ne m.refcnt b x _ (λ e. ne (sym e));
          disk = refl;
          cache = refl;
        }))

  -- With room in the log, inside an operation and for a block outside the log, `log_write`
  -- returns. The header then lists the blocks that it listed and this one, and stays well-formed;
  -- it has grown, and the buffer is pinned once more, only if the block was not listed.
  pub log_write-Logged : Ends (Logged l m b) (λ _. ⊥) (log_write b l m)
  log_write-Logged = elim (Bool-cases (mentions block n b)) [
    | inl old ↦ absorbed old
    | inr new ↦ added new
  ]
