-- ===== src/Pty/Restored/Kill.antt =====
-- The escalation of `kill_with_escalation` is bounded in time.
use tttt.Base.{
  ℕ, zero, suc, ◌+◌, ◌*◌, ◌≤◌, ◌≡◌, refl, Bool, true, false, Option, none, some, List, Result, ok,
  err, arith, ◌∙◌, Bool-cases, Option-cases, inl, inr,
}
use tttt.Base.Int.{ℤ}
use tttt.Pty.Backend.{PtyError}
use tttt.Pty.Restored
use tttt.Pty.Restored.{Os, Errno, Signal, WaitStatus, RestoredPty, is_open}

-- A clock in milliseconds that only `sleep` moves: the calls of an escalation return at once.
pub record Clock (O : Os) : Type 0 where
  pub now : O.World → ℕ
  pub slept : (ms : ℕ) (w : O.World) → now (O.sleep ms w) ≡ now w + ms
  pub read_at_once : (fd : ℤ) (n : ℕ) (w : O.World) → now (O.read fd n w).1 ≡ now w
  pub kill_at_once : (pid : ℤ) (s : Signal) (w : O.World) → now (O.kill pid s w).1 ≡ now w
  pub wait_at_once : (pid : ℤ) (w : O.World) → now (O.wait_pid pid w).1 ≡ now w
  pub close_at_once : (fd : ℤ) (w : O.World) → now (O.close fd w) ≡ now w

module _ (O : Os) (C : Clock O) where
  now-probed : (a : Result Errno (List ℕ) × O.World) → C.now (Restored.probed O a).1 ≡ C.now a.1
  now-probed (ok bytes, w) = refl
  now-probed (err Errno.eagain, w) = refl
  now-probed (err Errno.eintr, w) = refl
  now-probed (err Errno.eio, w) = refl
  now-probed (err Errno.echild, w) = refl
  now-probed (err (Errno.other_errno n), w) = refl

  now-probe : (n : ℕ) (r : RestoredPty) (w : O.World) → C.now (Restored.probe O n r w).1 ≡ C.now w
  now-probe n r w = elim (Bool-cases (is_open r.master_fd)) [
    | inl opened ↦ rw opened (now-probed (O.read r.master_fd n w) ∙ C.read_at_once r.master_fd n w)
    | inr closed ↦ rw closed refl
  ]

  now-waited :
      (r : RestoredPty) (a : Result Errno WaitStatus × O.World)
      → C.now (Restored.waited O r a).1 ≡ C.now a.1
  now-waited r (ok (WaitStatus.exited code), w) = refl
  now-waited r (ok WaitStatus.signaled, w) = refl
  now-waited r (ok WaitStatus.still_alive, w) = refl
  now-waited r (ok WaitStatus.other_status, w) = refl
  now-waited r (err Errno.echild, w) = now-probe 0 r w
  now-waited r (err Errno.eagain, w) = refl
  now-waited r (err Errno.eintr, w) = refl
  now-waited r (err Errno.eio, w) = refl
  now-waited r (err (Errno.other_errno n), w) = refl

  now-try_wait : (r : RestoredPty) (w : O.World) → C.now (Restored.try_wait O r w).1 ≡ C.now w
  unfolding Restored.try_wait
  now-try_wait r w = elim (Option-cases r.child_pid) [
    | inl unknown ↦ rw unknown (now-probe 1 r w)
    | inr (pid, known) ↦ rw known (now-waited r (O.wait_pid pid w) ∙ C.wait_at_once pid w)
  ]

  now-polled :
      (n : ℕ) (w : O.World) (a : Result PtyError (Option ℕ) × O.World)
      (later : O.World → Result PtyError Bool × O.World)
      → ((v : O.World) → C.now (later v).1 ≤ C.now v + n)
      → C.now (Restored.polled O later a).1 ≤ C.now a.1 + n
  now-polled n w (err e, v) later h = omega arith
  now-polled n w (ok none, v) later h = h v
  now-polled n w (ok (some code), v) later h = omega arith

  now-poll_exit :
      (n : ℕ) (r : RestoredPty) (w : O.World)
      → C.now (Restored.poll_exit O n r w).1 ≤ C.now w + n * 50
  unfolding Restored.poll_exit
  now-poll_exit zero r w = omega arith
  now-poll_exit (suc n) r w = omega (
    arith,
    now-polled (n * 50) w (Restored.try_wait O r (O.sleep 50 w)) (λ v. Restored.poll_exit O n r v)
        (λ v. now-poll_exit n r v),
    now-try_wait r (O.sleep 50 w),
    C.slept 50 w,
  )

  now-settled :
      (r : RestoredPty) (a : Result PtyError Bool × O.World)
      → C.now (Restored.settled O r a).2 ≡ C.now a.1
  now-settled r (ok b, w) = refl
  now-settled r (err e, w) = refl

  now-forced :
      (group : ℤ) (r : RestoredPty) (w : O.World)
      → C.now (Restored.forced O group r w).2 ≤ C.now w + 500
  now-forced group r w = elim (Bool-cases (is_open r.master_fd)) [
    | inl opened ↦ rw opened (
        omega (
          arith,
          now-settled _ (
              Restored.poll_exit O 10 _
                (O.close r.master_fd (O.kill (Restored.neg group) Signal.sigkill w).1)),
          now-poll_exit 10 (record r { master_fd = Restored.closed_fd })
              (O.close r.master_fd (O.kill (Restored.neg group) Signal.sigkill w).1),
          C.close_at_once r.master_fd (O.kill (Restored.neg group) Signal.sigkill w).1,
          C.kill_at_once (Restored.neg group) Signal.sigkill w,
        ))
    | inr closed ↦ rw closed (
        omega (
          arith,
          now-settled r
              (Restored.poll_exit O 10 r (O.kill (Restored.neg group) Signal.sigkill w).1),
          now-poll_exit 10 r (O.kill (Restored.neg group) Signal.sigkill w).1,
          C.kill_at_once (Restored.neg group) Signal.sigkill w,
        ))
  ]

  now-escalated :
      (group : ℤ) (r : RestoredPty) (a : Result PtyError Bool × O.World)
      → C.now (Restored.escalated O group r a).2 ≤ C.now a.1 + 500
  now-escalated group r (err e, w) = omega arith
  now-escalated group r (ok true, w) = omega arith
  now-escalated group r (ok false, w) = now-forced group r w

  now-targeted :
      (r : RestoredPty) (w : O.World) (o : Option ℤ)
      → C.now (Restored.targeted O r w o).2 ≤ C.now w + 650
  now-targeted r w none = omega arith
  now-targeted r w (some group) = omega (
    arith,
    now-escalated group r
        (Restored.poll_exit O 3 r (O.kill (Restored.neg group) Signal.sigterm w).1),
    now-poll_exit 3 r (O.kill (Restored.neg group) Signal.sigterm w).1,
    C.kill_at_once (Restored.neg group) Signal.sigterm w,
  )

  -- Where only `sleep` takes time, `kill_with_escalation` returns within 650 milliseconds.
  pub kill_with_escalation_bounded :
      (r : RestoredPty) (w : O.World)
      → C.now (Restored.kill_with_escalation O r w).2 ≤ C.now w + 650
  unfolding Restored.kill_with_escalation
  kill_with_escalation_bounded r w = now-targeted r w (Restored.group_of O r w)
