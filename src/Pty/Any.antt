-- ===== src/Pty/Any.antt =====
-- `AnyPty` of crates/tttt-pty/src/any_backend.rs: a backend that is one of two.
use tttt.Base.{ℕ, ◌≤◌, ◌≡◌, List, ◌++◌, length, take, Result, ok, err}
use tttt.Pty.Backend.{PtyBackend, PtyError, Action}
use tttt.PendingInput.Queue.Conserve.{Accounts}

module _ (R S : PtyBackend) where
  pub data AnyPty : Type 0 where
    real : R.Pty → AnyPty
    restored_pty : S.Pty → AnyPty

  abbrev as_real : {A : Type 0} → Result PtyError A × R.Pty → Result PtyError A × AnyPty
  as_real (result, p) = (result, real p)

  abbrev as_restored : {A : Type 0} → Result PtyError A × S.Pty → Result PtyError A × AnyPty
  as_restored (result, p) = (result, restored_pty p)

  -- The method of whichever backend it is.
  abbrev pub forward : {A : Type 0} → Action R.Pty A → Action S.Pty A → Action AnyPty A
  forward f g (real p) = as_real (f p)
  forward f g (restored_pty p) = as_restored (g p)

  abbrev pub any_pty : PtyBackend
  any_pty = record {
    Pty = AnyPty;
    write = λ bytes. forward (R.write bytes) (S.write bytes);
    try_write = λ bytes. forward (R.try_write bytes) (S.try_write bytes);
    read = λ n. forward (R.read n) (S.read n);
    resize = λ cols rows. forward (R.resize cols rows) (S.resize cols rows);
    kill = forward R.kill S.kill;
    try_wait = forward R.try_wait S.try_wait;
  }

module _ (R S : PtyBackend) (A : Accounts R) (C : Accounts S) where
  abbrev pub written : AnyPty R S → List ℕ
  written (real p) = A.written p
  written (restored_pty p) = C.written p

  pub any_accepted :
      (bytes : List ℕ) (p : AnyPty R S) (n : ℕ)
      → ((any_pty R S).try_write bytes p).0 ≡ ok n
      → (n ≤ length bytes)
        × (written ((any_pty R S).try_write bytes p).1 ≡ written p ++ take n bytes)
  any_accepted bytes (real p) n h = A.accepted bytes p n h
  any_accepted bytes (restored_pty p) n h = C.accepted bytes p n h

  pub any_refused :
      (bytes : List ℕ) (p : AnyPty R S) (why : PtyError)
      → ((any_pty R S).try_write bytes p).0 ≡ err why
      → written ((any_pty R S).try_write bytes p).1 ≡ written p
  any_refused bytes (real p) why h = A.refused bytes p why h
  any_refused bytes (restored_pty p) why h = C.refused bytes p why h

  -- It keeps account of its writes where both do.
  abbrev pub any_accounts : Accounts (any_pty R S)
  any_accounts = record {
    written = λ p. written p;
    accepted = λ bytes p n h. any_accepted bytes p n h;
    refused = λ bytes p why h. any_refused bytes p why h;
  }
