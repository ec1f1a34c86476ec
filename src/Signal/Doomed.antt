-- ===== src/Signal/Doomed.antt =====
-- A process for which SIGKILL is due, and the code that a stopped process runs.
use risc_v_operating_system.Base.{
  ℕ, ◌<◌, ◌≡◌, refl, inl, inr, Bool, true, false, ◌&&◌, ◌||◌, not, some, [], ◌∷◌, arith, ◌==◌,
  Bool-cases, Safely, safely, Safely-bind,
}
use risc_v_operating_system.Base.Word.{one_shl, land, lnot, bit, bit-land, bit-lnot, bit-one_shl}
use risc_v_operating_system.Proc.{Proc}
use risc_v_operating_system.Signal.{
  sig_dfl, sig_ign, sigkill, sigstop, sigcont, sigcont_func, sigkill_func,
  is_pending_and_not_masked, turnoff_sigbit, search_cont_signals,
}
use risc_v_operating_system.Signal.Loop.{Others, wait_stopped}
use risc_v_operating_system.Signal.Mask.{is_pending_iff}

-- A handler that the kernel runs itself, or none.
abbrev pub is_plain : ℕ → Bool
is_plain h = h == sig_dfl || h == sig_ign || h == sigkill || h == sigstop || h == sigcont

-- A process outside its handlers, with SIGKILL pending or acted on, that has no user handler for a
-- signal below SIGKILL.
pub record Doomed (p : Proc) : Type 0 where
  pub free : p.locked ≡ false
  pub calm : p.signal_handling ≡ false
  pub default : p.signal_handlers sigkill ≡ sig_dfl
  pub plain : (i : ℕ) → i < sigkill → is_plain (p.signal_handlers i) ≡ true
  pub due : (p.killed || bit sigkill p.pending_signals) ≡ true

pub bit-turnoff :
    (i x : ℕ)
    → bit sigkill (land 32 x (lnot 32 (one_shl i))) ≡ (bit sigkill x && not (sigkill == i))
bit-turnoff i x = ground (
  arith,
  bit-land 32 sigkill x (lnot 32 (one_shl i)),
  bit-lnot 32 sigkill (one_shl i),
  bit-one_shl sigkill i,
)

pub turnoff_sigbit-Doomed :
    (p : Proc) (i : ℕ)
    → Doomed p
    → (p.killed || not (sigkill == i)) ≡ true
    → Safely (λ q. Doomed q × (q.killed ≡ p.killed)) (turnoff_sigbit p i)
unfolding turnoff_sigbit
turnoff_sigbit-Doomed p i d other = rw d.free (
    safely (
      record {
        free = refl;
        calm = d.calm;
        default = d.default;
        plain = d.plain;
        due = ground (arith, bit-turnoff i p.pending_signals, d.due);
      },
      refl,
    ))

pub sigkill_func-killed :
    (p : Proc) → Doomed p → Safely (λ q. Doomed q × (q.killed ≡ true)) (sigkill_func p)
unfolding sigkill_func
sigkill_func-killed p d = rw d.free (
    safely (
      record { free = refl; calm = d.calm; default = d.default; plain = d.plain; due = refl },
      refl,
    ))

-- A stopped process with SIGKILL pending always goes on.
pub search-Doomed :
    (p : Proc)
    → Doomed p
    → bit sigkill p.pending_signals ≡ true
    → Safely (λ (found, q). (found ≡ true) × Doomed q) (search_cont_signals p)
unfolding search_cont_signals sigcont_func
search-Doomed p d pending = elim (Bool-cases (is_pending_and_not_masked sigcont p)) [
  | inl cont ↦ rw cont (
      Safely-bind
        (turnoff_sigbit-Doomed (record p { stopped = false }) sigcont
          (record {
            free = d.free;
            calm = d.calm;
            default = d.default;
            plain = d.plain;
            due = d.due;
          })
          (ground arith))
        (λ q e. safely (refl, e.0)))
  | inr no_cont ↦
      let kill : is_pending_and_not_masked sigkill p ≡ true =
        ground (arith, is_pending_iff sigkill p) in
      rw (no_cont, kill)
        (Safely-bind (sigkill_func-killed p d) (λ q (e, k).
          Safely-bind (turnoff_sigbit-Doomed q sigkill e (rw k)) (λ r f. safely (refl, f.0))))
]

pub wait_stopped-Doomed :
    (others : Others) (p : Proc)
    → Doomed p
    → p.killed ≡ false
    → Safely (λ r. (o : Others) × (q : Proc) × (r ≡ some (o, q)) × Doomed q) (wait_stopped others p)
unfolding wait_stopped
wait_stopped-Doomed [] p d alive = elim (Bool-cases p.stopped) [
  | inl stop ↦ simp stop (
      Safely-bind (search-Doomed p d (ground (arith, d.due)))
        (λ (b, q) e. rw e.0 (safely ([], q, refl, e.1))))
  | inr go ↦ simp go (safely ([], p, refl, d))
]
wait_stopped-Doomed (o ∷ others) p d alive = elim (Bool-cases p.stopped) [
  | inl stop ↦ simp stop (
      Safely-bind (search-Doomed p d (ground (arith, d.due)))
        (λ (b, q) e. rw e.0 (safely (o ∷ others, q, refl, e.1))))
  | inr go ↦ simp go (safely (o ∷ others, p, refl, d))
]
