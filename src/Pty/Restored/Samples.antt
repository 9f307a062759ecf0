-- ===== src/Pty/Restored/Samples.antt =====
-- A system whose terminal takes two bytes a write, and whose process outlives SIGTERM.
use tttt.Base.{
  ℕ, suc, ◌+◌, ◌≤◌, ◌<◌, ◌≡◌, refl, true, none, some, List, [], ◌++◌, length, take, Result, ok, err,
  min, ap, arith,
}
use tttt.Base.Int.{pos}
use tttt.Base.Text.{codes}
use tttt.Pty.Restored
use tttt.Pty.Restored.{Os, Errno, RestoredPty, WaitStatus}
use tttt.Pty.Restored.Write
use tttt.Pty.Restored.Write.{Delivers, Advances, write_delivers}
use tttt.Pty.Restored.Kill.{Clock, kill_with_escalation_bounded}

-- The world is what the terminal was given, and the time.
abbrev system : Os
system = record {
  World = List ℕ × ℕ;
  write =
      λ fd bytes w. (ok (min 2 (length bytes)), (w.0 ++ take (min 2 (length bytes)) bytes, w.1));
  read = λ fd n w. (err Errno.eagain, w);
  get_fd = λ fd w. ok 0;
  get_fl = λ fd w. ok 0;
  set_nonblock = λ fd flags w. (ok tt, w);
  set_cloexec = λ fd w. (ok tt, w);
  set_size = λ fd rows cols w. (true, w);
  foreground_group = λ fd w. none;
  kill = λ pid s w. (ok tt, w);
  wait_pid = λ pid w. (ok WaitStatus.still_alive, w);
  close = λ fd w. w;
  sleep = λ ms w. (w.0, w.1 + ms);
  last_error = λ w. [];
  message = λ e. [];
}

abbrev written : ℕ → Result Errno ℕ
written n = ok n

some_bytes :
    (bytes given : List ℕ) (n : ℕ)
    → written (min 2 (length bytes)) ≡ written n
    → (n ≤ length bytes) × (given ++ take (min 2 (length bytes)) bytes ≡ given ++ take n bytes)
some_bytes bytes given n h =
    let eq : min 2 (length bytes) ≡ n = ground arith in
    (omega (arith, eq), ap (λ k. given ++ take k bytes) eq)

not_refused : (n : ℕ) (e : Errno) → written n ≡ err e → ⊥
not_refused n e h = ground arith

at_least_one : (cs : List ℕ) (n : ℕ) → written (min 2 (suc (length cs))) ≡ written n → 0 < n
at_least_one cs n h = let eq : min 2 (suc (length cs)) ≡ n = ground arith in omega (arith, eq)

abbrev delivers : Delivers system
delivers = record {
  given = λ fd w. w.0;
  accepted = λ fd bytes w n h. some_bytes bytes w.0 n h;
  refused = λ fd bytes w e h. absurd (not_refused (min 2 (length bytes)) e h);
  slept = λ fd ms w. refl;
}

abbrev advances : Advances system
advances = record { positive = λ fd c cs w n h. at_least_one cs n h }

abbrev clock : Clock system
clock = record {
  now = λ w. w.1;
  slept = λ ms w. refl;
  read_at_once = λ fd n w. refl;
  kill_at_once = λ pid s w. refl;
  wait_at_once = λ pid w. refl;
  close_at_once = λ fd w. refl;
}

abbrev shell : RestoredPty
shell = record { master_fd = pos 5; child_pid = some (pos 100) }

write_delivers_example :
    Write.Written system delivers advances
      (pos 5)
      (codes "hello")
      0
      ([], 0)
      (Restored.write system (codes "hello") shell ([], 0))
write_delivers_example = write_delivers system delivers advances (codes "hello") shell ([], 0)

kill_with_escalation_bounded_example :
    clock.now (Restored.kill_with_escalation system shell ([], 0)).2 ≤ 0 + 650
kill_with_escalation_bounded_example = kill_with_escalation_bounded system clock shell ([], 0)
