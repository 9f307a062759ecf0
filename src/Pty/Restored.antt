-- ===== src/Pty/Restored.antt =====
-- `RestoredPty` of crates/tttt-pty/src/restored.rs: a terminal inherited over a live reload, on bare
-- system calls. The operating system is a parameter; file descriptors and process identifiers are
-- its integers, and what it sees of time is `sleep`.
pub mod Write
pub mod Kill
mod Samples
use tttt.Base.{
  ℕ, zero, suc, ◌+◌, ◌-◌, ◌*◌, Bool, true, false, Option, none, some, List, [], ◌∷◌, ◌++◌, ltb,
  if◌then◌else◌, length, take, drop, Result, ok, err, min,
}
use tttt.Base.Int.{ℤ, pos, negsuc}
use tttt.Base.Text.{Text, codes}
use tttt.Base.Decimal.{to_decimal}
use tttt.Pty.Backend.{PtyBackend, PtyError, io, spawn, resize_error}

pub data Errno : Type 0 where
  eagain eintr eio echild : Errno
  -- another one, by its number
  other_errno : ℕ → Errno

pub data Signal : Type 0 where
  sigterm sigkill : Signal

pub data WaitStatus : Type 0 where
  exited : ℕ → WaitStatus
  signaled still_alive other_status : WaitStatus

-- What the code calls of the operating system, on the state of the world.
pub record Os : Type 1 where
  pub World : Type 0
  pub write : ℤ → List ℕ → World → Result Errno ℕ × World
  pub read : ℤ → ℕ → World → Result Errno (List ℕ) × World
  -- fcntl: F_GETFD, F_GETFL, F_SETFL and F_SETFD
  pub get_fd : ℤ → World → Result Errno ℕ
  pub get_fl : ℤ → World → Result Errno ℕ
  pub set_nonblock : ℤ → ℕ → World → Result Errno (Unit {0}) × World
  pub set_cloexec : ℤ → World → Result Errno (Unit {0}) × World
  -- ioctl: TIOCSWINSZ with rows and columns, and TIOCGPGRP
  pub set_size : ℤ → ℕ → ℕ → World → Bool × World
  pub foreground_group : ℤ → World → Option ℤ
  pub kill : ℤ → Signal → World → Result Errno (Unit {0}) × World
  pub wait_pid : ℤ → World → Result Errno WaitStatus × World
  pub close : ℤ → World → World
  -- so many milliseconds
  pub sleep : ℕ → World → World
  pub last_error : World → Text
  pub message : Errno → Text

pub record RestoredPty : Type 0 where
  pub master_fd : ℤ
  pub child_pid : Option ℤ

abbrev pub neg : ℤ → ℤ
neg (pos zero) = pos 0
neg (pos (suc n)) = negsuc n
neg (negsuc n) = pos (suc n)

abbrev pub is_open : ℤ → Bool
is_open (pos n) = true
is_open (negsuc n) = false

abbrev is_positive : ℤ → Bool
is_positive (pos zero) = false
is_positive (pos (suc n)) = true
is_positive (negsuc n) = false

unfoldable pub show_int : ℤ → Text
show_int (pos n) = to_decimal n
show_int (negsuc n) = codes "-" ++ to_decimal (n + 1)

abbrev pub chunk_size : ℕ
chunk_size = 512

-- `MAX_RETRIES` ends the loop at the hundredth refusal: 99 waits.
abbrev pub max_waits : ℕ
max_waits = 99

abbrev closed_fd : ℤ
closed_fd = negsuc 0

abbrev timed_out : PtyError
timed_out = io (codes "PTY write timed out after retries")

abbrev pid_unknown : PtyError
pid_unknown = io (codes "cannot kill: child PID unknown")

module _ (O : Os) where
  -- A method that may fail, and what it does to the world.
  abbrev pub Act : Type 0 → Type 0
  Act A = O.World → Result PtyError A × O.World

  abbrev pub io_error : Errno → PtyError
  io_error e = io (O.message e)

  abbrev failed : Text → ℤ → Errno → PtyError
  failed what fd e = spawn (what ++ (show_int fd ++ (codes ": " ++ O.message e)))

  abbrev cloexec_set :
      ℤ → Option ℤ → Result Errno (Unit {0}) × O.World → Result PtyError RestoredPty × O.World
  cloexec_set fd pid (err e, w) = (err (failed (codes "fcntl F_SETFD on fd ") fd e), w)
  cloexec_set fd pid (ok _, w) = (ok (record { master_fd = fd; child_pid = pid }), w)

  abbrev nonblock_set :
      ℤ → Option ℤ → Result Errno (Unit {0}) × O.World → Result PtyError RestoredPty × O.World
  nonblock_set fd pid (err e, w) = (err (failed (codes "fcntl F_SETFL on fd ") fd e), w)
  nonblock_set fd pid (ok _, w) = cloexec_set fd pid (O.set_cloexec fd w)

  unfoldable pub from_raw_fd : ℤ → Option ℤ → Act RestoredPty
  from_raw_fd fd pid w = elim (O.get_fd fd w) [
    | err e ↦ (
      err (
          spawn (codes "inherited FD " ++ (show_int fd ++ (codes " is invalid: " ++ O.message e)))),
      w,
    )
    | ok flags ↦ elim (O.get_fl fd w) [
      | err e ↦ (err (failed (codes "fcntl F_GETFL on fd ") fd e), w)
      | ok flags' ↦ nonblock_set fd pid (O.set_nonblock fd flags' w)
    ]
  ]

  abbrev positive : Option ℤ → Option ℤ
  positive none = none
  positive (some group) = if is_positive group then some group else none

  unfoldable pub discover_foreground_pgid : RestoredPty → O.World → Option ℤ
  discover_foreground_pgid r w = positive (O.foreground_group r.master_fd w)

  abbrev pub answered :
      (O.World → Result PtyError ℕ × O.World)
      → Result Errno ℕ × O.World
      → Result PtyError ℕ × O.World
  answered again (ok n, w) = (ok n, w)
  answered again (err Errno.eagain, w) = again w
  answered again (err e, w) = (err (io_error e), w)

  -- A write that would block is repeated, at most as often as there are waits left.
  unfoldable pub write_chunk : ℕ → ℤ → List ℕ → Act ℕ
  write_chunk zero fd bytes w = answered (λ v. (err timed_out, v)) (O.write fd bytes w)
  write_chunk (suc waits) fd bytes w =
      answered (λ v. write_chunk waits fd bytes (O.sleep 5 v)) (O.write fd bytes w)

  -- The bytes from `offset` on to the end of the chunk.
  abbrev pub chunk_at : ℕ → List ℕ → List ℕ
  chunk_at offset bytes =
      take (min (offset + chunk_size) (length bytes) - offset) (drop offset bytes)

  abbrev pub then_from :
      ℕ
      → (ℕ → O.World → Option (Result PtyError (Unit {0}) × O.World))
      → Result PtyError ℕ × O.World
      → Option (Result PtyError (Unit {0}) × O.World)
  then_from offset rest (err e, w) = some (err e, w)
  then_from offset rest (ok n, w) = rest (offset + n) w

  -- The loop over the chunks, in so many rounds; `none` where they do not suffice.
  unfoldable pub write_from :
      ℕ → ℤ → List ℕ → ℕ → O.World → Option (Result PtyError (Unit {0}) × O.World)
  write_from zero fd bytes offset w = if ltb offset (length bytes) then none else some (ok tt, w)
  write_from (suc rounds) fd bytes offset w =
      if ltb offset (length bytes)
      then then_from offset (λ o v. write_from rounds fd bytes o v)
          (write_chunk max_waits fd (chunk_at offset bytes) w)
      else some (ok tt, w)

  unfoldable pub write :
      List ℕ → RestoredPty → O.World → Option (Result PtyError (Unit {0}) × O.World)
  write bytes r w = write_from (length bytes) r.master_fd bytes 0 w

  abbrev tried : Result Errno ℕ → Result PtyError ℕ
  tried (ok n) = ok n
  tried (err Errno.eagain) = ok 0
  tried (err Errno.eintr) = ok 0
  tried (err e) = err (io_error e)

  unfoldable pub try_write : List ℕ → RestoredPty → Act ℕ
  try_write bytes r w = let (answer, w') = O.write r.master_fd bytes w in (tried answer, w')

  abbrev received : Result Errno (List ℕ) → Result PtyError (List ℕ)
  received (ok bytes) = ok bytes
  received (err Errno.eagain) = ok []
  received (err Errno.eio) = ok []
  received (err e) = err (io_error e)

  unfoldable pub read : ℕ → RestoredPty → Act (List ℕ)
  read n r w = let (answer, w') = O.read r.master_fd n w in (received answer, w')

  unfoldable pub resize : ℕ → ℕ → RestoredPty → Act (Unit {0})
  resize cols rows r w =
      let (done, w') = O.set_size r.master_fd rows cols w in
      if done
      then (ok tt, w')
      else (err (resize_error (codes "TIOCSWINSZ failed: " ++ O.last_error w')), w')

  abbrev killed : Result Errno (Unit {0}) × O.World → Result PtyError (Unit {0}) × O.World
  killed (ok _, w) = (ok tt, w)
  killed (err e, w) = (err (io_error e), w)

  unfoldable pub kill : RestoredPty → Act (Unit {0})
  kill r w = elim r.child_pid [
    | some pid ↦ killed (O.kill pid sigterm w)
    | none ↦ elim (discover_foreground_pgid r w) [
      | some group ↦ killed (O.kill (neg group) sigterm w)
      | none ↦ (err pid_unknown, w)
    ]
  ]

  -- What a read that is only a probe says of the process.
  abbrev probed : Result Errno (List ℕ) × O.World → Result PtyError (Option ℕ) × O.World
  probed (err Errno.eio, w) = (ok (some 0), w)
  probed (_, w) = (ok none, w)

  abbrev probe : ℕ → RestoredPty → Act (Option ℕ)
  probe n r w = if is_open r.master_fd then probed (O.read r.master_fd n w) else (ok (some 0), w)

  abbrev waited :
      RestoredPty → Result Errno WaitStatus × O.World → Result PtyError (Option ℕ) × O.World
  waited r (ok (WaitStatus.exited code), w) = (ok (some code), w)
  waited r (ok WaitStatus.signaled, w) = (ok (some 128), w)
  waited r (ok WaitStatus.still_alive, w) = (ok none, w)
  waited r (ok WaitStatus.other_status, w) = (ok none, w)
  waited r (err Errno.echild, w) = probe 0 r w
  waited r (err e, w) = (err (io_error e), w)

  unfoldable pub try_wait : RestoredPty → Act (Option ℕ)
  try_wait r w = elim r.child_pid [ some pid ↦ waited r (O.wait_pid pid w) | none ↦ probe 1 r w ]

  abbrev polled :
      (O.World → Result PtyError Bool × O.World)
      → Result PtyError (Option ℕ) × O.World
      → Result PtyError Bool × O.World
  polled later (err e, w) = (err e, w)
  polled later (ok none, w) = later w
  polled later (ok (some code), w) = (ok true, w)

  -- Polls 50 ms apart: whether the process has ended.
  unfoldable pub poll_exit : ℕ → RestoredPty → Act Bool
  poll_exit zero r w = (ok false, w)
  poll_exit (suc n) r w = polled (λ v. poll_exit n r v) (try_wait r (O.sleep 50 w))

  abbrev pub Escalated : Type 0
  Escalated = Result PtyError (Unit {0}) × RestoredPty × O.World

  abbrev settled : RestoredPty → Result PtyError Bool × O.World → Escalated
  settled r (err e, w) = (err e, r, w)
  settled r (ok _, w) = (ok tt, r, w)

  -- SIGKILL, and the descriptor closed.
  abbrev forced : ℤ → RestoredPty → O.World → Escalated
  forced group r w =
      let w' = (O.kill (neg group) sigkill w).1 in
      if is_open r.master_fd
      then (let r' = record r { master_fd = closed_fd } in
          settled r' (poll_exit 10 r' (O.close r.master_fd w')))
      else settled r (poll_exit 10 r w')

  abbrev escalated : ℤ → RestoredPty → Result PtyError Bool × O.World → Escalated
  escalated group r (err e, w) = (err e, r, w)
  escalated group r (ok true, w) = (ok tt, r, w)
  escalated group r (ok false, w) = forced group r w

  abbrev group_of : RestoredPty → O.World → Option ℤ
  group_of r w = elim r.child_pid [ some pid ↦ some pid | none ↦ discover_foreground_pgid r w ]

  abbrev targeted : RestoredPty → O.World → Option ℤ → Escalated
  targeted r w none = (err pid_unknown, r, w)
  targeted r w (some group) = escalated group r (poll_exit 3 r (O.kill (neg group) sigterm w).1)

  unfoldable pub kill_with_escalation : RestoredPty → O.World → Escalated
  kill_with_escalation r w = targeted r w (group_of r w)

  -- `Drop`
  unfoldable pub drop_pty : RestoredPty → O.World → O.World
  drop_pty r w = if is_open r.master_fd then O.close r.master_fd w else w

  abbrev or_stalled :
      RestoredPty × O.World
      → Option (Result PtyError (Unit {0}) × O.World)
      → Result PtyError (Unit {0}) × (RestoredPty × O.World)
  or_stalled s none = (err (io (codes "stalled")), s)
  or_stalled s (some (result, w)) = (result, (s.0, w))

  abbrev with_pty :
      {A : Type 0}
      → RestoredPty
      → Result PtyError A × O.World
      → Result PtyError A × (RestoredPty × O.World)
  with_pty r (result, w) = (result, (r, w))

  -- The trait. The rounds of `write` suffice where each write takes a byte.
  abbrev pub restored : PtyBackend
  restored = record {
    Pty = RestoredPty × O.World;
    write = λ bytes s. or_stalled s (write bytes s.0 s.1);
    try_write = λ bytes s. with_pty s.0 (try_write bytes s.0 s.1);
    read = λ n s. with_pty s.0 (read n s.0 s.1);
    resize = λ cols rows s. with_pty s.0 (resize cols rows s.0 s.1);
    kill = λ s. with_pty s.0 (kill s.0 s.1);
    try_wait = λ s. with_pty s.0 (try_wait s.0 s.1);
  }
