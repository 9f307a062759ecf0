-- ===== src/Pty/Restored/Write.antt =====
-- The writes of a restored terminal deliver.
use tttt.Base.{
  ℕ, zero, suc, ◌+◌, ◌-◌, ◌≤◌, ◌<◌, ◌≡◌, refl, false, Option, none, some, List, [], ◌∷◌, ◌++◌, ltb,
  length, take, drop, Result, ok, err, min, arith, ap, sym, ◌∙◌, Bool-cases, inl, inr, append_assoc,
  append-nil, length-take, length-drop, take-take, take-append-drop, drop-drop, take-append-take,
}
use tttt.Base.Int.{ℤ}
use tttt.Pty.Backend.{PtyError}
use tttt.PendingInput.Queue.Conserve.{Accounts}
use tttt.Pty.Restored
use tttt.Pty.Restored.{Os, Errno, RestoredPty, chunk_size, restored}

-- What write(2) promises of a descriptor: of the bytes it takes as many as it says, from the front,
-- and none where it fails. `given` is what the descriptor was given so far; time adds nothing to it.
pub record Delivers (O : Os) : Type 0 where
  pub given : ℤ → O.World → List ℕ
  pub accepted :
      (fd : ℤ) (bytes : List ℕ) (w : O.World) (n : ℕ)
      → (O.write fd bytes w).0 ≡ ok n
      → (n ≤ length bytes) × (given fd (O.write fd bytes w).1 ≡ given fd w ++ take n bytes)
  pub refused :
      (fd : ℤ) (bytes : List ℕ) (w : O.World) (e : Errno)
      → (O.write fd bytes w).0 ≡ err e
      → given fd (O.write fd bytes w).1 ≡ given fd w
  pub slept : (fd : ℤ) (ms : ℕ) (w : O.World) → given fd (O.sleep ms w) ≡ given fd w

drop_all {ℓ} : {A : Type ℓ} (n : ℕ) (xs : List A) → length xs ≤ n → drop n xs ≡ []
drop_all zero [] h = refl
drop_all zero (x ∷ xs) h = absurd (omega arith)
drop_all (suc n) [] h = refl
drop_all (suc n) (x ∷ xs) h = drop_all n xs (omega arith)

-- A write of some bytes takes one at least, or fails.
pub record Advances (O : Os) : Type 0 where
  pub positive :
      (fd : ℤ) (c : ℕ) (cs : List ℕ) (w : O.World) (n : ℕ)
      → (O.write fd (c ∷ cs) w).0 ≡ ok n
      → 0 < n

module _ (O : Os) (D : Delivers O) (A : Advances O) where
  -- The result of a write of some bytes.
  abbrev Wrote : {E : Type 0} → ℤ → List ℕ → O.World → Result E ℕ × O.World → Type 0
  Wrote fd bytes w (ok n, w') =
      (0 < n) × (n ≤ length bytes) × (D.given fd w' ≡ D.given fd w ++ take n bytes)
  Wrote fd bytes w (err e, w') = D.given fd w' ≡ D.given fd w

  some_positive :
      (fd : ℤ) (bytes : List ℕ) (w : O.World) (n : ℕ)
      → 0 < length bytes
      → (O.write fd bytes w).0 ≡ ok n
      → 0 < n
  some_positive fd [] w n h k = absurd (omega arith)
  some_positive fd (c ∷ cs) w n h k = A.positive fd c cs w n k

  write-Wrote :
      (fd : ℤ) (bytes : List ℕ) (w : O.World) (r : Result Errno ℕ × O.World)
      → 0 < length bytes
      → O.write fd bytes w ≡ r
      → Wrote fd bytes w r
  write-Wrote fd bytes w (ok n, w') some_bytes h =
      let a = D.accepted fd bytes w n (ap (λ p. p.0) h) in
      (
        some_positive fd bytes w n some_bytes (ap (λ p. p.0) h),
        a.0,
        ap (λ p. D.given fd p.1) (sym h) ∙ a.1,
      )
  write-Wrote fd bytes w (err e, w') some_bytes h =
      ap (λ p. D.given fd p.1) (sym h) ∙ D.refused fd bytes w e (ap (λ p. p.0) h)

  Wrote-trans :
      (fd : ℤ) (bytes : List ℕ) (w v : O.World) (r : Result PtyError ℕ × O.World)
      → D.given fd v ≡ D.given fd w
      → Wrote fd bytes v r
      → Wrote fd bytes w r
  Wrote-trans fd bytes w v (ok n, w') same h = (h.0, h.1, h.2 ∙ ap (λ t. t ++ take n bytes) same)
  Wrote-trans fd bytes w v (err e, w') same h = h ∙ same

  answered-Wrote :
      (fd : ℤ) (bytes : List ℕ) (w : O.World) (again : O.World → Result PtyError ℕ × O.World)
      (r : Result Errno ℕ × O.World)
      → ((v : O.World) → Wrote fd bytes v (again v))
      → Wrote fd bytes w r
      → Wrote fd bytes w (Restored.answered O again r)
  answered-Wrote fd bytes w again (ok n, w') later h = h
  answered-Wrote fd bytes w again (err Errno.eagain, w') later h =
      Wrote-trans fd bytes w w' (again w') h (later w')
  answered-Wrote fd bytes w again (err Errno.eintr, w') later h = h
  answered-Wrote fd bytes w again (err Errno.eio, w') later h = h
  answered-Wrote fd bytes w again (err Errno.echild, w') later h = h
  answered-Wrote fd bytes w again (err (Errno.other_errno n), w') later h = h

  write_chunk-Wrote :
      (waits : ℕ) (fd : ℤ) (bytes : List ℕ) (w : O.World)
      → 0 < length bytes
      → Wrote fd bytes w (Restored.write_chunk O waits fd bytes w)
  unfolding Restored.write_chunk
  write_chunk-Wrote zero fd bytes w h =
      answered-Wrote fd bytes w _ (O.write fd bytes w) (λ v. refl) (write-Wrote fd bytes w _ h refl)
  write_chunk-Wrote (suc waits) fd bytes w h =
      answered-Wrote fd bytes w _ (O.write fd bytes w)
        (λ v.
          Wrote-trans fd bytes v (O.sleep 5 v) _ (D.slept fd 5 v)
            (write_chunk-Wrote waits fd bytes (O.sleep 5 v) h))
        (write-Wrote fd bytes w _ h refl)

  -- The loop from an offset on: it comes to a result, and a success wrote all the rest, a failure a
  -- part of it.
  abbrev pub Written :
      ℤ → List ℕ → ℕ → O.World → Option (Result PtyError (Unit {0}) × O.World) → Type 0
  Written fd bytes offset w none = ⊥
  Written fd bytes offset w (some (ok _, w')) = D.given fd w' ≡ D.given fd w ++ drop offset bytes
  Written fd bytes offset w (some (err e, w')) =
      (k : ℕ) × (offset + k < length bytes)
      × (D.given fd w' ≡ D.given fd w ++ take k (drop offset bytes))

  -- A part written, and then the rest.
  then_taken :
      (given part rest : List ℕ) (n : ℕ) (given' : List ℕ)
      → given' ≡ given ++ take n part
      → given' ++ rest ≡ given ++ (take n part ++ rest)
  then_taken given part rest n given' h =
      ap (λ t. t ++ rest) h ∙ append_assoc given (take n part) rest

  Written-trans :
      (fd : ℤ) (bytes : List ℕ) (offset n : ℕ) (w v : O.World)
      (r : Option (Result PtyError (Unit {0}) × O.World))
      → D.given fd v ≡ D.given fd w ++ take n (drop offset bytes)
      → Written fd bytes (offset + n) v r
      → Written fd bytes offset w r
  Written-trans fd bytes offset n w v none h k = k
  Written-trans fd bytes offset n w v (some (ok _, w')) h k =
      k
      ∙ then_taken (D.given fd w) (drop offset bytes) _ n _ h
      ∙ ap (λ t. D.given fd w ++ t)
          (ap (λ t. take n (drop offset bytes) ++ t) (sym (drop-drop offset n bytes))
            ∙ take-append-drop n (drop offset bytes))
  Written-trans fd bytes offset n w v (some (err e, w')) h (j, within, k) = (
    n + j,
    omega (arith, within),
    k
        ∙ then_taken (D.given fd w) (drop offset bytes) _ n _ h
        ∙ ap (λ t. D.given fd w ++ t)
            (ap (λ t. take n (drop offset bytes) ++ take j t) (sym (drop-drop offset n bytes))
              ∙ take-append-take n j (drop offset bytes)),
  )

  then_from-Written :
      (fd : ℤ) (bytes : List ℕ) (offset : ℕ) (w : O.World)
      (rest : ℕ → O.World → Option (Result PtyError (Unit {0}) × O.World))
      (r : Result PtyError ℕ × O.World)
      → offset < length bytes
      → ((n : ℕ) (v : O.World)
          → 0 < n
          → offset + n ≤ length bytes
          → Written fd bytes (offset + n) v (rest (offset + n) v))
      → Wrote fd (Restored.chunk_at O offset bytes) w r
      → Written fd bytes offset w (Restored.then_from O offset rest r)
  then_from-Written fd bytes offset w rest (err e, v) more later h =
      (0, omega arith, h ∙ sym (append-nil (D.given fd w)))
  then_from-Written fd bytes offset w rest (ok n, v) more later h =
      let size = min (offset + chunk_size) (length bytes) - offset in
      let fits : n ≤ size = omega (arith, h.1, length-take size (drop offset bytes)) in
      Written-trans fd bytes offset n w v (rest (offset + n) v)
        (h.2 ∙ ap (λ t. D.given fd w ++ t) (take-take n size (drop offset bytes) fits))
        (later n v h.0 (omega (arith, fits)))

  write_from-Written :
      (rounds : ℕ) (fd : ℤ) (bytes : List ℕ) (offset : ℕ) (w : O.World)
      → offset ≤ length bytes
      → length bytes ≤ rounds + offset
      → Written fd bytes offset w (Restored.write_from O rounds fd bytes offset w)
  unfolding Restored.write_from
  write_from-Written zero fd bytes offset w within enough =
      let over : ltb offset (length bytes) ≡ false = ground arith in
      rw over (
        sym (
          ap (λ t. D.given fd w ++ t) (drop_all offset bytes (omega arith))
          ∙ append-nil (D.given fd w)))
  write_from-Written (suc rounds) fd bytes offset w within enough =
      elim (Bool-cases (ltb offset (length bytes))) [
        | inr over ↦ rw over (
            sym (
              ap (λ t. D.given fd w ++ t) (drop_all offset bytes (ground arith))
              ∙ append-nil (D.given fd w)))
        | inl more ↦
            let left : offset < length bytes = ground arith in
            rw more (
              then_from-Written fd bytes offset w (λ o v. Restored.write_from O rounds fd bytes o v)
                _ left
                (λ n v pos fits.
                  write_from-Written rounds fd bytes (offset + n) v fits
                    (omega (arith, enough, pos)))
                (write_chunk-Wrote Restored.max_waits fd (Restored.chunk_at O offset bytes) w (
                  omega (
                    arith,
                    left,
                    length-take (min (offset + chunk_size) (length bytes) - offset)
                        (drop offset bytes),
                    length-drop offset bytes,
                  ))))
      ]

  -- Where a write of some bytes takes one at least or fails, `write` comes to a result in as many
  -- rounds as there are bytes: a success has given the terminal all of them, in order and once each;
  -- a failure a first part of them that is not the whole.
  pub write_delivers :
      (bytes : List ℕ) (r : RestoredPty) (w : O.World)
      → Written r.master_fd bytes 0 w (Restored.write O bytes r w)
  unfolding Restored.write
  write_delivers bytes r w =
      write_from-Written (length bytes) r.master_fd bytes 0 w (omega arith) (omega arith)

module _ (O : Os) (D : Delivers O) where
  taken_none :
      (fd : ℤ) (bytes : List ℕ) (w v : O.World) (n : ℕ) (e : Errno)
      → O.write fd bytes w ≡ (err e, v)
      → 0 ≡ n
      → (n ≤ length bytes) × (D.given fd v ≡ D.given fd w ++ take n bytes)
  taken_none fd bytes w v n e h none_taken = rw (← none_taken) (
    omega arith,
    ap (λ p. D.given fd p.1) (sym h)
        ∙ D.refused fd bytes w e (ap (λ p. p.0) h)
        ∙ sym (append-nil (D.given fd w)),
  )

  -- The write that does not block, as its result is told.
  tried-accepted :
      (fd : ℤ) (bytes : List ℕ) (w : O.World) (a : Result Errno ℕ × O.World) (n : ℕ)
      → O.write fd bytes w ≡ a
      → Restored.tried O a.0 ≡ ok n
      → (n ≤ length bytes) × (D.given fd a.1 ≡ D.given fd w ++ take n bytes)
  tried-accepted fd bytes w (ok k, v) n h told =
      let a = D.accepted fd bytes w k (ap (λ p. p.0) h) in
      let eq : k ≡ n = ground arith in rw (← eq) (a.0, ap (λ p. D.given fd p.1) (sym h) ∙ a.1)
  tried-accepted fd bytes w (err Errno.eagain, v) n h told =
      taken_none fd bytes w v n Errno.eagain h (ground arith)
  tried-accepted fd bytes w (err Errno.eintr, v) n h told =
      taken_none fd bytes w v n Errno.eintr h (ground arith)
  tried-accepted fd bytes w (err Errno.eio, v) n h told = absurd (ground arith)
  tried-accepted fd bytes w (err Errno.echild, v) n h told = absurd (ground arith)
  tried-accepted fd bytes w (err (Errno.other_errno k), v) n h told = absurd (ground arith)

  tried-refused :
      (fd : ℤ) (bytes : List ℕ) (w : O.World) (a : Result Errno ℕ × O.World) (why : PtyError)
      → O.write fd bytes w ≡ a
      → Restored.tried O a.0 ≡ err why
      → D.given fd a.1 ≡ D.given fd w
  tried-refused fd bytes w (ok k, v) why h told = absurd (ground arith)
  tried-refused fd bytes w (err e, v) why h told =
      ap (λ p. D.given fd p.1) (sym h) ∙ D.refused fd bytes w e (ap (λ p. p.0) h)

  pub try_write-accepted :
      (bytes : List ℕ) (s : RestoredPty × O.World) (n : ℕ)
      → ((restored O).try_write bytes s).0 ≡ ok n
      → (n ≤ length bytes)
        × (D.given s.0.master_fd ((restored O).try_write bytes s).1.1
            ≡ D.given s.0.master_fd s.1 ++ take n bytes)
  unfolding Restored.try_write
  try_write-accepted bytes s n h = tried-accepted s.0.master_fd bytes s.1 _ n refl h

  pub try_write-refused :
      (bytes : List ℕ) (s : RestoredPty × O.World) (why : PtyError)
      → ((restored O).try_write bytes s).0 ≡ err why
      → D.given s.0.master_fd ((restored O).try_write bytes s).1.1 ≡ D.given s.0.master_fd s.1
  unfolding Restored.try_write
  try_write-refused bytes s why h = tried-refused s.0.master_fd bytes s.1 _ why refl h

  -- A restored terminal keeps account of its writes, as the queues of input want it.
  abbrev pub restored_accounts : Accounts (restored O)
  restored_accounts = record {
    written = λ s. D.given s.0.master_fd s.1;
    accepted = λ bytes s n h. try_write-accepted bytes s n h;
    refused = λ bytes s why h. try_write-refused bytes s why h;
  }
