-- ===== src/Log/Reserve.antt =====
-- The space that `begin_op` reserves: concurrent operations, each with the blocks that it may
-- still add to the log, as a step relation.
use risc_v_operating_system.Base.{
  ◌↔◌, ℕ, suc, ◌+◌, ◌-◌, ◌*◌, ◌≤◌, ◌≡◌, ap, ◌∙◌, false, arith, some, List, [], ◌∷◌, ◌++◌, length,
  length-append,
}
use risc_v_operating_system.Log.Ends
use risc_v_operating_system.Log.Ends.{Ends, ended, cut, bwrite-Ends}
use risc_v_operating_system.Log.Device.{Machine, done, panic}
use risc_v_operating_system.Log.{
  Log, LogHeader, log_size, max_op_blocks, begin_op, end_op, log_write,
}
use risc_v_operating_system.Log.Fields.{begin_op-fields, log_write-fields, end_op-fields}

-- The log and, for each operation that is running, how many blocks it may still add.
pub record Running : Type 0 where
  pub log : Log
  pub quotas : List ℕ

pub data Step (s t : Running) : Type 0 where
  begin : begin_op [] s.log ≡ some t.log → t.quotas ≡ max_op_blocks ∷ s.quotas → Step s t
  write :
      (front back : List ℕ) (quota : ℕ) (b : ℕ) (m m' : Machine)
      → s.quotas ≡ front ++ (suc quota ∷ back)
      → log_write b s.log m ≡ done t.log m'
      → t.quotas ≡ front ++ ((suc quota + s.log.lh.n - t.log.lh.n) ∷ back)
      → Step s t
  end :
      (front back : List ℕ) (quota : ℕ) (m m' : Machine)
      → s.quotas ≡ front ++ (quota ∷ back)
      → end_op s.log m ≡ done t.log m'
      → t.quotas ≡ front ++ back
      → Step s t

pub data Reach (s : Running) : Running → Type 0 where
  here : Reach s s
  next : {t u : Running} → Reach s t → Step t u → Reach s u

abbrev pub sum : List ℕ → ℕ
sum [] = 0
sum (x ∷ xs) = x + sum xs

sum-append : (xs ys : List ℕ) → sum (xs ++ ys) ≡ sum xs + sum ys
sum-append [] ys = omega arith
sum-append (x ∷ xs) ys = omega (arith, sum-append xs ys)

abbrev pub Small : List ℕ → Type 0
Small [] = Unit
Small (x ∷ xs) = (x ≤ max_op_blocks) × Small xs

Small-sum : (xs : List ℕ) → Small xs → sum xs ≤ length xs * max_op_blocks
Small-sum [] h = omega arith
Small-sum (x ∷ xs) h = omega (arith, Small-sum xs h.1, h.0)

Small-replace :
    (front back : List ℕ) (x y : ℕ)
    → Small (front ++ (x ∷ back))
    → y ≤ max_op_blocks
    → Small (front ++ (y ∷ back)) × Small (front ++ back)
Small-replace [] back x y h le = ((le, h.1), h.1)
Small-replace (f ∷ front) back x y h le =
    let (p, q) = Small-replace front back x y h.1 le in ((h.0, p), (h.0, q))

Small-at : (front back : List ℕ) (x : ℕ) → Small (front ++ (x ∷ back)) → x ≤ max_op_blocks
Small-at [] back x h = h.0
Small-at (f ∷ front) back x h = Small-at front back x h.1

-- The log has room for all that the running operations may still add.
pub record Reserved (s : Running) : Type 0 where
  pub room : s.log.lh.n + sum s.quotas ≤ log_size
  pub each : Small s.quotas
  pub counted : s.log.outstanding ≡ length s.quotas
  pub few : length s.quotas ≤ 3
  pub idle : s.log.committing ≡ false
  pub empty : length s.quotas ≡ 0 → s.log.lh.n ≡ 0

-- the length and the sum of a list with one quota in the middle
middle :
    (xs front back : List ℕ) (x : ℕ)
    → xs ≡ front ++ (x ∷ back)
    → (length xs ≡ length (front ++ back) + 1) × (sum xs ≡ sum (front ++ back) + x)
middle xs front back x e = rw e (
  omega (arith, length-append front (x ∷ back), length-append front back),
  omega (arith, sum-append front (x ∷ back), sum-append front back),
)

begin-Reserved :
    (s t : Running)
    → begin_op [] s.log ≡ some t.log
    → t.quotas ≡ max_op_blocks ∷ s.quotas
    → Reserved s
    → Reserved t
begin-Reserved s t e q r =
    let f = begin_op-fields s.log t.log e in
    let n_lem : t.log.lh.n ≡ s.log.lh.n = ap (λ (h : LogHeader). h.n) f.1 in
    let length_lem : length t.quotas ≡ length s.quotas + 1 = rw q (omega arith) in
    let sum_lem : sum t.quotas ≡ max_op_blocks + sum s.quotas = ap sum q in
    record {
      room = omega (arith, f.0, r.counted, Small-sum s.quotas r.each);
      each = rw q (omega arith, r.each);
      counted = omega (arith, f.2, r.counted);
      few = omega (arith, f.0, r.counted);
      idle = f.3 ∙ r.idle;
      empty = λ z. absurd (omega arith);
    }

write-Reserved :
    (s t : Running) (front back : List ℕ) (quota : ℕ) (b : ℕ) (m m' : Machine)
    → s.quotas ≡ front ++ (suc quota ∷ back)
    → log_write b s.log m ≡ done t.log m'
    → t.quotas ≡ front ++ ((suc quota + s.log.lh.n - t.log.lh.n) ∷ back)
    → Reserved s
    → Reserved t
write-Reserved s t front back quota b m m' qs e qt r =
    let f = log_write-fields b s.log t.log m m' e in
    let before = middle s.quotas front back (suc quota) qs in
    let now = middle t.quotas front back _ qt in
    let small = rw qs at r.each in
    record {
      room = omega (arith, r.room, before.1, now.1, f.0, f.1);
      each =
          rw qt
            (Small-replace front back (suc quota) _ small
              (omega (arith, Small-at front back (suc quota) small, f.0))).0;
      counted = omega (arith, r.counted, f.2, before.0, now.0);
      few = omega (arith, r.few, before.0, now.0);
      idle = f.3 ∙ r.idle;
      empty = λ z. absurd (omega (arith, now.0));
    }

end-Reserved :
    (s t : Running) (front back : List ℕ) (quota : ℕ) (m m' : Machine)
    → s.quotas ≡ front ++ (quota ∷ back)
    → end_op s.log m ≡ done t.log m'
    → t.quotas ≡ front ++ back
    → Reserved s
    → Reserved t
end-Reserved s t front back quota m m' qs e qt r =
    let f = Ends.of_done (end_op-fields s.log m r.idle) e in
    let before = middle s.quotas front back quota qs in
    let small = rw qs at r.each in
    let length_lem : length t.quotas ≡ length (front ++ back) = ap length qt in
    let sum_lem : sum t.quotas ≡ sum (front ++ back) = ap sum qt in
    let out_lem : t.log.outstanding + 1 ≡ s.log.outstanding =
      omega (arith, f.0, r.counted, before.0, r.few) in
    record {
      room = ground (arith, r.room, before.1, f.2);
      each = rw qt (Small-replace front back quota 0 small (omega arith)).1;
      counted = omega (arith, out_lem, r.counted, before.0);
      few = omega (arith, r.few, before.0);
      idle = f.1;
      empty = λ z. ground (arith, f.2, f.0, out_lem, before.0, r.counted);
    }

-- Every step keeps the reservation.
pub Step-Reserved : {s t : Running} → Step s t → Reserved s → Reserved t
Step-Reserved {s} {t} (begin e q) r = begin-Reserved s t e q r
Step-Reserved {s} {t} (write front back quota b m m' qs e qt) r =
    write-Reserved s t front back quota b m m' qs e qt r
Step-Reserved {s} {t} (end front back quota m m' qs e qt) r =
    end-Reserved s t front back quota m m' qs e qt r

pub Reach-Reserved : {s t : Running} → Reserved s → Reach s t → Reserved t
Reach-Reserved r here = r
Reach-Reserved r (next path st) = Step-Reserved st (Reach-Reserved r path)

-- In a state that is reached from a reserved one, let an operation that may still add a block
-- call `log_write`. It panics exactly when the log's region on the disk, of `size` blocks, has no
-- room for one more entry behind its header; so a region of `log_size + 1` blocks is enough,
-- and one of `log_size` blocks, which mkfs makes, is not.
pub log_write-panic_iff :
    {s t : Running} (front back : List ℕ) (quota b : ℕ) (m : Machine)
    → Reserved s
    → Reach s t
    → t.quotas ≡ front ++ (suc quota ∷ back)
    → (log_write b t.log m ≡ panic) ↔ (t.log.size ≤ t.log.lh.n + 1)
unfolding log_write
log_write-panic_iff {s} {t} front back quota b m r path q =
    let now = Reach-Reserved r path in
    let split = middle t.quotas front back (suc quota) q in
    (λ e. ground (arith, now.room, split.1, split.0, now.counted), λ h. ground arith)
