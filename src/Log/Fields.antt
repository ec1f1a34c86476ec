-- ===== src/Log/Fields.antt =====
-- What `begin_op`, `log_write` and `end_op` do to the fields that count operations and blocks.
use risc_v_operating_system.Base.{true}
use risc_v_operating_system.Base.{
  ℕ, zero, suc, ◌+◌, ◌*◌, ◌≤◌, ◌≡◌, refl, ap, false, arith, ltb, ◌==◌, inl, inr, Bool-cases,
  if◌then◌else◌, some, [],
}
use risc_v_operating_system.Log.Ends
use risc_v_operating_system.Log.Ends.{Ends, ended, cut, bwrite-Ends}
use risc_v_operating_system.Log.{
  write_log_loop, write_log, install_loop, install_trans, write_head, one_less, wakeup,
}
use risc_v_operating_system.Log.Device.{bwrite, Machine, Outcome, done}
use risc_v_operating_system.Log.{
  Log, log_size, max_op_blocks, clear, begin_op, end_op, log_write, commit,
}

-- What each operation does to the fields that the reservation is about.
pub begin_op-fields :
    (l l' : Log)
    → begin_op [] l ≡ some l'
    → (l.lh.n + (l.outstanding + 1) * max_op_blocks ≤ log_size)
      × (l'.lh ≡ l.lh)
      × (l'.outstanding ≡ l.outstanding + 1)
      × (l'.committing ≡ l.committing)
unfolding begin_op
begin_op-fields l l' e = ground arith

pub log_write-fields :
    (b : ℕ) (l l' : Log) (m m' : Machine)
    → log_write b l m ≡ done l' m'
    → (l.lh.n ≤ l'.lh.n)
      × (l'.lh.n ≤ l.lh.n + 1)
      × (l'.outstanding ≡ l.outstanding)
      × (l'.committing ≡ l.committing)
unfolding log_write
log_write-fields b l l' m m' e = ground arith

-- a run that may end in any way but a panic
abbrev Any : {A : Type 0} → Outcome A → Type 0
Any = Ends (λ _ _. Unit {0}) (λ _. Unit {0})

bwrite-Any : (b : ℕ) (m : Machine) → Any (bwrite b m)
bwrite-Any b m = bwrite-Ends b m (λ _. tt) (λ _. tt)

write_log_loop-Any :
    (l : Log) (rounds tail : ℕ) (m : Machine) → Any (write_log_loop l rounds tail m)
unfolding write_log_loop
write_log_loop-Any l zero tail m = ended tt
write_log_loop-Any l (suc rounds) tail m =
    Ends.bind (bwrite-Any (l.start + tail + 1) _)
      (λ _ m' _. write_log_loop-Any l rounds (tail + 1) m')

install_loop-Any :
    (l : Log) (rounds tail : ℕ) (m : Machine) → Any (install_loop l false rounds tail m)
unfolding install_loop
install_loop-Any l zero tail m = ended tt
install_loop-Any l (suc rounds) tail m =
    Ends.bind (bwrite-Any (l.lh.block tail) _) (λ _ m' _. install_loop-Any l rounds (tail + 1) _)

write_head-Any : (l : Log) (m : Machine) → Any (write_head l m)
unfolding write_head
write_head-Any l m = bwrite-Any l.start _

commit-clear : (l : Log) (m : Machine) → Ends (λ l' _. l' ≡ clear l) (λ _. Unit {0}) (commit l m)
unfolding commit write_log install_trans
commit-clear l m = elim (Bool-cases (ltb 0 l.lh.n)) [
  | inl some_blocks ↦ rw some_blocks (
      Ends.bind (write_log_loop-Any l l.lh.n 0 m) λ _ m1 _.
        Ends.bind (write_head-Any l m1) λ _ m2 _.
          Ends.bind (install_loop-Any l l.lh.n 0 m2)
            λ _ m3 _. Ends.bind (write_head-Any (clear l) m3) λ _ m4 _. ended refl)
  | inr nothing ↦ rw nothing (ended (ground arith))
]

pub end_op-fields :
    (l : Log) (m : Machine)
    → l.committing ≡ false
    → Ends
        (λ l' _.
          (l'.outstanding ≡ (one_less l).outstanding)
          × (l'.committing ≡ false)
          × (l'.lh.n ≡ (if (one_less l).outstanding == 0 then 0 else l.lh.n)))
        (λ _. Unit {0})
        (end_op l m)
unfolding end_op
end_op-fields l m idle = elim (Bool-cases ((one_less l).outstanding == 0)) [
  | inl last ↦
      let l1 : Log = record (one_less l) { committing = true } in
      rw (idle, last)
        (Ends.bind {k = λ l' m'. done (wakeup (record l' { committing = false })) m'}
          (commit-clear l1 m)
          (λ l' m' e. ended (ap (λ (x : Log). x.outstanding) e, refl, ap (λ (x : Log). x.lh.n) e)))
  | inr more ↦ rw (idle, more) (ended (refl, refl, refl))
]
