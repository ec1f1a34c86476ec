-- ===== src/Signal/Mask.antt =====
-- Masks and pending sets, a signal at a time.
use risc_v_operating_system.Base.{ℕ, ◌<◌, ◌≡◌, refl, ◌&&◌, ◌||◌, not, arith, ◌==◌}
use risc_v_operating_system.Base.Word.{
  one_shl, land, lor, lnot, bit, bit-land, bit-lor, bit-lnot, bit-one_shl, land-one_shl,
}
use risc_v_operating_system.Proc.{Proc}
use risc_v_operating_system.Signal.{sigkill, sigstop, sigprocmask, is_pending_and_not_masked}

-- A signal is due if it is pending and not masked; SIGKILL and SIGSTOP are due if pending.
pub is_pending_iff :
    (i : ℕ) (p : Proc)
    → i < 32
    → is_pending_and_not_masked i p
      ≡ (bit i p.pending_signals && (i == sigkill || i == sigstop || not (bit i p.signals_mask)))
unfolding is_pending_and_not_masked
is_pending_iff i p h = ground (
  arith,
  land-one_shl 32 i p.pending_signals h,
  land-one_shl 64 i
      (land 64 p.signals_mask (land 64 (lnot 64 (one_shl sigkill)) (lnot 64 (one_shl sigstop)))),
  bit-land 64 i p.signals_mask (land 64 (lnot 64 (one_shl sigkill)) (lnot 64 (one_shl sigstop))),
  bit-land 64 i (lnot 64 (one_shl sigkill)) (lnot 64 (one_shl sigstop)),
  bit-lnot 64 i (one_shl sigkill),
  bit-lnot 64 i (one_shl sigstop),
  bit-one_shl i sigkill,
  bit-one_shl i sigstop,
)

-- `sigprocmask` returns the old mask, and sets the new one, but for SIGKILL and SIGSTOP, which are
-- never masked.
pub sigprocmask_lem :
    (mask : ℕ) (p : Proc) (i : ℕ)
    → i < 32
    → ((sigprocmask mask p).0 ≡ p.signals_mask)
      × (bit i (sigprocmask mask p).1.signals_mask
          ≡ (bit i mask && not (i == sigkill) && not (i == sigstop)))
unfolding sigprocmask
sigprocmask_lem mask p i h = (
  refl,
  ground (
    arith,
    bit-land 32 i mask (lnot 32 (lor 32 (one_shl sigkill) (one_shl sigstop))),
    bit-lnot 32 i (lor 32 (one_shl sigkill) (one_shl sigstop)),
    bit-lor 32 i (one_shl sigkill) (one_shl sigstop),
    bit-one_shl i sigkill,
    bit-one_shl i sigstop,
  ),
)
