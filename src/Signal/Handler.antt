-- ===== src/Signal/Handler.antt =====
-- The user's handler and the return from it, and what can never be caught or masked.
use risc_v_operating_system.Signal.{trapframe_size}
use risc_v_operating_system.Base.{
  ℕ, ◌+◌, ◌-◌, ◌^◌, ◌≡◌, refl, ap, ◌∙◌, true, false, arith, update_self, update_ne, ok, sym, Safely,
  safely, was_safe,
}
use risc_v_operating_system.Base.Word.{u64}
use risc_v_operating_system.Proc.{Proc}
use risc_v_operating_system.Signal.{
  UserMemory, sigprocmask, sigret, enter_handler, usersignalhandler,
}

module _ (func_size : ℕ) (u : UserMemory) (p : Proc) (signum : ℕ) where
  -- where the frame is saved, and where the user's stack begins below it
  abbrev pub backup : ℕ
  backup = u64 (p.trapframe 6 + 2 ^ 64 - trapframe_size)

  abbrev pub stack : ℕ
  stack = u64 (backup + 2 ^ 64 - func_size)

  -- the process as it enters its handler, and the memory then
  pub record Entered (v : UserMemory) (q : Proc) : Type 0 where
    pub program_counter : q.trapframe 3 ≡ (u.action (p.signal_handlers signum)).sa_handler
    pub argument : q.trapframe 14 ≡ signum
    pub return_address : q.trapframe 5 ≡ stack
    pub stack_pointer : q.trapframe 6 ≡ stack
    pub code : v.sigret_code stack ≡ true
    pub handling : q.signal_handling ≡ true
    pub saved_at : q.user_tf_backup ≡ backup
    pub saved : v.frame backup ≡ p.trapframe
    pub saved_mask : q.signals_mask_backup ≡ p.signals_mask
    pub free : q.locked ≡ false

  -- On a process whose lock is free `usersignalhandler` returns. The process then enters the
  -- handler with the signal as its argument and the copy of `callsigret` as its return
  -- address, and its registers and its mask are saved.
  pub usersignalhandler-Entered :
      p.locked ≡ false
      → (v : UserMemory) × (q : Proc) × (usersignalhandler func_size u p signum ≡ ok (v, q))
        × Entered v q
  unfolding usersignalhandler sigprocmask
  usersignalhandler-Entered free = (
    (enter_handler func_size u (record p { locked = true }) signum).0,
    record (enter_handler func_size u (record p { locked = true }) signum).1 { locked = false },
    rw free refl,
    record {
      program_counter =
          update_ne _ 5 3 _ (omega arith)
          ∙ update_ne _ 14 3 _ (omega arith)
          ∙ update_ne _ 6 3 _ (omega arith)
          ∙ update_self p.trapframe 3 _;
      argument = update_ne _ 5 14 _ (omega arith) ∙ update_self _ 14 _;
      return_address = update_self _ 5 _;
      stack_pointer =
          update_ne _ 5 6 _ (omega arith) ∙ update_ne _ 14 6 _ (omega arith) ∙ update_self _ 6 _;
      code = update_self u.sigret_code stack true;
      handling = refl;
      saved_at = refl;
      saved = update_self u.frame backup p.trapframe;
      saved_mask = refl;
      free = refl;
    },
  )

  sigret-Entered :
      (v w : UserMemory) (q later : Proc)
      → Entered v q
      → later.user_tf_backup ≡ q.user_tf_backup
      → later.signals_mask_backup ≡ q.signals_mask_backup
      → later.locked ≡ false
      → w.frame q.user_tf_backup ≡ v.frame q.user_tf_backup
      → sigret w later
        ≡ ok (record later {
          trapframe = p.trapframe;
          signals_mask = p.signals_mask;
          user_tf_backup = 0;
          signal_handling = false;
        })
  unfolding sigret
  sigret-Entered v w q later en at mask free frame =
      let registers : w.frame later.user_tf_backup ≡ p.trapframe =
        ap w.frame at ∙ frame ∙ ap v.frame en.saved_at ∙ en.saved in
      let old_mask : later.signals_mask_backup ≡ p.signals_mask = mask ∙ en.saved_mask in
      ground (arith, registers, old_mask, free)

  -- A process enters its handler by `usersignalhandler`. If `sigret` comes later, with the saved
  -- frame in the user's memory and the two places of the backup as the entry left them, and with
  -- the lock free, it gives back the registers and the mask from before the signal, and the process
  -- is no longer in a handler.
  pub sigret-usersignalhandler :
      (v w : UserMemory) (q later : Proc)
      → p.locked ≡ false
      → usersignalhandler func_size u p signum ≡ ok (v, q)
      → later.user_tf_backup ≡ q.user_tf_backup
      → later.signals_mask_backup ≡ q.signals_mask_backup
      → later.locked ≡ false
      → w.frame q.user_tf_backup ≡ v.frame q.user_tf_backup
      → sigret w later
        ≡ ok (record later {
          trapframe = p.trapframe;
          signals_mask = p.signals_mask;
          user_tf_backup = 0;
          signal_handling = false;
        })
  sigret-usersignalhandler v w q later free entry =
      let e = usersignalhandler-Entered free in
      let went : Safely (λ (r : UserMemory × Proc). Entered r.0 r.1) (ok (v, q)) =
        rw (sym entry, e.2) (safely e.3) in
      sigret-Entered v w q later (was_safe went)
