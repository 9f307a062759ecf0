-- ===== src/Mcp/Tools/WaitFor/Returns.antt =====
-- Waiting for a pattern comes to an end.
use tttt.Base.{
  ℕ, zero, suc, ◌+◌, ◌*◌, ◌≤◌, ◌<◌, ◌≡◌, refl, Bool, true, false, Option, none, some, List, [], ◌∷◌,
  leb, length, Result, ok, err, min, arith, Bool-cases, Option-cases, inl, inr, ◌⊎◌,
}
use tttt.Base.Text.{Text, codes}
use tttt.Pty.Backend.{PtyBackend, PtyError}
use tttt.Pty.Screen.{Vt100}
use tttt.Pty.Session
use tttt.Pty.Session.{PtySession}
use tttt.Pty.Manager
use tttt.Pty.Manager.{SessionManager}
use tttt.Mcp.Notification.{Regex}
use tttt.Mcp.Protocol.{Json, McpError}
use tttt.Mcp.Tools.Numbers.{Numbers, bounded_integer}
use tttt.Mcp.Tools.WaitFor
use tttt.Mcp.Tools.WaitFor.{max_delay_seconds}

abbrev pub is_some {ℓ} : {A : Type ℓ} → Option A → Bool
is_some none = false
is_some (some a) = true

module _ (J : Json) (N : Numbers J) (R : Regex) (V : Vt100) (B : PtyBackend) where
  bounded_integer_bound :
      (value : J.Value) (d maximum n : ℕ) (name : Text)
      → d ≤ maximum
      → bounded_integer J N value (some d) maximum name ≡ ok n
      → n ≤ maximum
  unfolding bounded_integer
  bounded_integer_bound value d maximum n name h e = elim (Option-cases (N.as_u64 value)) [
    | inr (k, number) ↦ let eq : min k maximum ≡ n = ground arith in omega (arith, eq)
    | inl other ↦ elim (Bool-cases (N.is_null value)) [
      | inl null ↦ ground arith
      | inr given ↦ elim (Bool-cases (N.is_integer_from maximum value)) [
        | inl large ↦ ground arith
        | inr wrong ↦ absurd (ground arith)
      ]
    ]
  ]

  -- Polls at least 100 milliseconds apart, from a time on.
  abbrev pub Paced : ℕ → List (WaitFor.Poll J N R V B) → Type 0
  Paced t [] = Unit
  Paced t (p ∷ ps) = (t ≤ p.checked_at) × Paced (p.checked_at + 100_000_000) ps

  pumped_late :
      (w : WaitFor.Wait J N R V B) (p : WaitFor.Poll J N R V B) (g : SessionManager V B)
      (r : Result PtyError ℕ × PtySession V B)
      → WaitFor.deadline J N R V B w ≤ p.checked_at
      → is_some (WaitFor.pumped J N R V B w p g r).0 ≡ true
  pumped_late w p g (err e, s) late = refl
  pumped_late w p g (ok n, s) late =
      let over : leb (WaitFor.deadline J N R V B w) p.checked_at ≡ true = ground arith in
      elim (Bool-cases (R.is_match w.compiled (Session.get_screen V B s))) [
        | inl matched ↦ rw matched refl
        | inr unmatched ↦ rw (unmatched, over) refl
      ]

  looked_late :
      (w : WaitFor.Wait J N R V B) (p : WaitFor.Poll J N R V B) (g : SessionManager V B)
      (r : Result PtyError (PtySession V B))
      → WaitFor.deadline J N R V B w ≤ p.checked_at
      → is_some (WaitFor.looked J N R V B w p g r).0 ≡ true
  looked_late w p g (err e) late = refl
  looked_late w p g (ok s) late = pumped_late w p g (Session.pump V B p.moment s) late

  poll_once_late :
      (w : WaitFor.Wait J N R V B) (p : WaitFor.Poll J N R V B) (g : SessionManager V B)
      → WaitFor.deadline J N R V B w ≤ p.checked_at
      → is_some (WaitFor.poll_once J N R V B w p g).0 ≡ true
  unfolding WaitFor.poll_once
  poll_once_late w p g late = elim (Bool-cases p.cancelled) [
    | inl over ↦ simp over refl
    | inr on ↦ simp on (looked_late w p g (Manager.get V B w.session_id g) late)
  ]

  or_next_some :
      (rest : SessionManager V B → Option (WaitFor.Answer J N R V B) × SessionManager V B)
      (r : Option (WaitFor.Answer J N R V B) × SessionManager V B)
      → ((is_some r.0 ≡ true) ⊎ ((g : SessionManager V B) → is_some (rest g).0 ≡ true))
      → is_some (WaitFor.or_next J N R V B rest r).0 ≡ true
  or_next_some rest (some a, g) h = refl
  or_next_some rest (none, g) (inl h) = absurd (ground arith)
  or_next_some rest (none, g) (inr h) = h g

  wait_loop_ends :
      (w : WaitFor.Wait J N R V B) (ps : List (WaitFor.Poll J N R V B)) (g : SessionManager V B)
      (t k : ℕ)
      → Paced t ps
      → k < length ps
      → WaitFor.deadline J N R V B w ≤ t + k * 100_000_000
      → is_some (WaitFor.wait_loop J N R V B w ps g).0 ≡ true
  unfolding WaitFor.wait_loop
  wait_loop_ends w [] g t k paced more late = absurd (omega arith)
  wait_loop_ends w (p ∷ ps) g t zero paced more late =
      or_next_some _ (WaitFor.poll_once J N R V B w p (p.others g))
        (inl (poll_once_late w p (p.others g) (omega (arith, late, paced.0))))
  wait_loop_ends w (p ∷ ps) g t (suc k) paced more late =
      or_next_some _ (WaitFor.poll_once J N R V B w p (p.others g)) (
        inr (λ g'.
          wait_loop_ends w ps g' (p.checked_at + 100_000_000) k paced.1 (omega arith)
            (omega (arith, late, paced.0))))

  -- Polls from a start on, more than a day of them.
  abbrev pub DayOfPolls : ℕ → List (WaitFor.Poll J N R V B) → Type 0
  DayOfPolls start polls = Paced start polls × (864_000 < length polls)

  compiled_wait_ends :
      (id pattern : Text) (ms start : ℕ) (r : Result Text R.Compiled)
      (polls : List (WaitFor.Poll J N R V B)) (g : SessionManager V B)
      → ms ≤ max_delay_seconds * 1000
      → DayOfPolls start polls
      → is_some (WaitFor.compiled_wait J N R V B id pattern ms start r polls g).0 ≡ true
  compiled_wait_ends id pattern ms start (err e) polls g short day = refl
  compiled_wait_ends id pattern ms start (ok re) polls g short day =
      wait_loop_ends _ polls g start 864_000 day.0 day.1 (omega (arith, short))

  timed_wait_ends :
      (id pattern : Text) (start : ℕ) (r : Result McpError ℕ)
      (polls : List (WaitFor.Poll J N R V B)) (g : SessionManager V B)
      → ((ms : ℕ) → r ≡ ok ms → ms ≤ max_delay_seconds * 1000)
      → DayOfPolls start polls
      → is_some (WaitFor.timed_wait J N R V B id pattern start r polls g).0 ≡ true
  timed_wait_ends id pattern start (err e) polls g bounded day = refl
  timed_wait_ends id pattern start (ok ms) polls g bounded day =
      compiled_wait_ends id pattern ms start (R.new pattern) polls g (bounded ms refl) day

  checked_wait_ends :
      (args : J.Value) (start : ℕ) (id pattern : Option Text)
      (polls : List (WaitFor.Poll J N R V B)) (g : SessionManager V B)
      → DayOfPolls start polls
      → is_some (WaitFor.checked_wait J N R V B args start id pattern polls g).0 ≡ true
  checked_wait_ends args start none pattern polls g day = refl
  checked_wait_ends args start (some id) none polls g day = refl
  checked_wait_ends args start (some id) (some pattern) polls g day =
      timed_wait_ends id pattern start _ polls g
        (λ ms e.
          bounded_integer_bound (J.index args (codes "timeout_ms")) 30_000
            (max_delay_seconds * 1000) ms (codes "timeout_ms") (omega arith) e)
        day

  -- Whatever its arguments and whatever happens to the sessions meanwhile, a wait for a pattern
  -- answers within a day: within 864001 polls that are at least 100 milliseconds apart.
  pub wait_for_returns :
      (args : J.Value) (start : ℕ) (polls : List (WaitFor.Poll J N R V B)) (g : SessionManager V B)
      → Paced start polls
      → 864_000 < length polls
      → is_some (WaitFor.handle_pty_wait_for J N R V B args start polls g).0 ≡ true
  unfolding WaitFor.handle_pty_wait_for
  wait_for_returns args start polls g paced many =
      checked_wait_ends args start (J.as_str (J.index args (codes "session_id")))
        (J.as_str (J.index args (codes "pattern"))) polls g (paced, many)
