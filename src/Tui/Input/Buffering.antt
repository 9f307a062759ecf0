-- ===== src/Tui/Input/Buffering.antt =====
-- Reports of the mouse that are cut into two reads.
use tttt.Base.{
  ℕ, zero, suc, ◌≡◌, refl, false, none, List, [], ◌∷◌, ◌++◌, ◌==◌, length, any, arith, All, ap, ◌∙◌,
  append_assoc, append-nil, inr, ◌≤◌,
}
use tttt.Tui.Input.{
  InputParser, pass_through, flush_raw, Scan, scan_byte, scan_bytes, process_raw_bytes,
  process_chunks, starts_mouse, split_chunks, process,
}
use tttt.Tui.Input.Mouse.{is_terminator, until_terminator, parse_sgr_mouse}

unterminated :
    (s : List ℕ)
    → All (λ c. is_terminator c ≡ false) s
    → (until_terminator s ≡ none) × (any is_terminator s ≡ false)
unfolding until_terminator
unterminated [] h = (refl, refl)
unterminated (c ∷ s) h = let ih = unterminated s h.1 in ground (arith, h.0)

split_chunks-unterminated :
    (fuel : ℕ) (s : List ℕ)
    → All (λ c. is_terminator c ≡ false) s
    → split_chunks (suc fuel) [] (0x1b ∷ b'[' ∷ b'<' ∷ s) ≡ ([], 0x1b ∷ b'[' ∷ b'<' ∷ s)
unfolding split_chunks starts_mouse parse_sgr_mouse
split_chunks-unterminated fuel s h = ground (arith, unterminated s h)

module _ (clock : ℕ → ℕ) where
  -- While nothing is kept from a report: the beginning of a report, its first three bytes and any
  -- bytes but an `M` or an `m`, yields no event and is kept; the next read then gives what both
  -- would have given in one.
  pub process-cut_report :
      (s rest : List ℕ) (p : InputParser)
      → p.mouse_buf ≡ []
      → All (λ c. is_terminator c ≡ false) s
      → let p' = (process clock (0x1b ∷ b'[' ∷ b'<' ∷ s) p).1 in
        ((process clock (0x1b ∷ b'[' ∷ b'<' ∷ s) p).0 ≡ [])
        × (process clock rest p' ≡ process clock ((0x1b ∷ b'[' ∷ b'<' ∷ s) ++ rest) p)
  unfolding process process_chunks
  process-cut_report s rest p empty h = rw (empty, split_chunks-unterminated _ s h) (refl, refl)

  -- A byte that is neither the prefix key nor Ctrl+C.
  abbrev pub IsOrdinary : InputParser → ℕ → Type 0
  IsOrdinary p c = ((c == p.config.prefix_key) ≡ false) × ((c == 3) ≡ false)

  scan_byte-ordinary :
      (c : ℕ) (s : Scan)
      → s.parser.prefix_armed ≡ false
      → IsOrdinary s.parser c
      → scan_byte clock c s ≡ record s { passthrough = s.passthrough ++ c ∷ [] }
  unfolding scan_byte
  scan_byte-ordinary c s idle h = ground arith

  scan-ordinary :
      (bytes : List ℕ) (s : Scan)
      → s.parser.prefix_armed ≡ false
      → All (IsOrdinary s.parser) bytes
      → scan_bytes clock bytes s ≡ record s { passthrough = s.passthrough ++ bytes }
  unfolding scan_bytes
  scan-ordinary [] s idle h = ground (arith, append-nil s.passthrough)
  scan-ordinary (c ∷ cs) s idle h = rw (scan_byte-ordinary c s idle h.0) (
      scan-ordinary cs (record s { passthrough = s.passthrough ++ c ∷ [] }) idle h.1
      ∙ ap (λ l. record s { passthrough = l }) (append_assoc s.passthrough (c ∷ []) cs))

  process_raw-ordinary :
      (c : ℕ) (cs : List ℕ) (p : InputParser)
      → p.prefix_armed ≡ false
      → All (IsOrdinary p) (c ∷ cs)
      → process_raw_bytes clock (c ∷ cs) p ≡ (pass_through (c ∷ cs) ∷ [], p)
  unfolding process_raw_bytes
  process_raw-ordinary c cs p idle h =
      rw (scan-ordinary (c ∷ cs) (record { parser = p; events = []; passthrough = [] }) idle h)

  split_chunks-no_escape :
      (fuel : ℕ) (raw bytes : List ℕ)
      → length bytes ≤ fuel
      → All (λ c. (c == 0x1b) ≡ false) bytes
      → split_chunks fuel raw bytes ≡ (flush_raw (raw ++ bytes) [], [])
  unfolding split_chunks starts_mouse
  split_chunks-no_escape zero raw [] le h = rw (append-nil raw)
  split_chunks-no_escape zero raw (c ∷ cs) le h = absurd (omega arith)
  split_chunks-no_escape (suc fuel) raw [] le h = rw (append-nil raw)
  split_chunks-no_escape (suc fuel) raw (c ∷ cs) le h = rw (not_mouse c cs h.0) (
      split_chunks-no_escape fuel (raw ++ c ∷ []) cs (omega arith) h.1
      ∙ ap (λ l. (flush_raw l [], [])) (append_assoc raw (c ∷ []) cs))
    where
      not_mouse : (c : ℕ) (cs : List ℕ) → (c == 0x1b) ≡ false → starts_mouse (c ∷ cs) ≡ false
      not_mouse c [] e = refl
      not_mouse c (a ∷ []) e = refl
      not_mouse c (a ∷ b ∷ cs) e = ground arith

  process_chunks-single :
      (c : ℕ) (cs : List ℕ) (p : InputParser)
      → p.prefix_armed ≡ false
      → All (IsOrdinary p) (c ∷ cs)
      → process_chunks clock (inr (c ∷ cs) ∷ []) p ≡ (pass_through (c ∷ cs) ∷ [], p)
  unfolding process_chunks
  process_chunks-single c cs p idle h = rw (process_raw-ordinary c cs p idle h)

  -- While the prefix is not armed and nothing is kept from a report, a read without the prefix
  -- key, Ctrl+C and escapes is passed on as it is, in one event, and changes nothing.
  pub process-ordinary :
      (c : ℕ) (cs : List ℕ) (p : InputParser)
      → p.prefix_armed ≡ false
      → p.mouse_buf ≡ []
      → All (IsOrdinary p) (c ∷ cs)
      → All (λ b. (b == 0x1b) ≡ false) (c ∷ cs)
      → process clock (c ∷ cs) p ≡ (pass_through (c ∷ cs) ∷ [], p)
  unfolding process
  process-ordinary c cs p idle empty h k =
      rw (empty, split_chunks-no_escape (length (c ∷ cs)) [] (c ∷ cs) (omega arith) k)
        (process_chunks-single c cs (record p { mouse_buf = [] }) idle h)

  -- While the prefix is not armed and nothing is kept from a report, and if neither the prefix key
  -- nor Ctrl+C nor another escape is in it: a report that is cut behind its second byte is not put
  -- together; the two parts are passed on to the terminal as they are.
  pub process-cut_early :
      (s : List ℕ) (p : InputParser)
      → p.prefix_armed ≡ false
      → p.mouse_buf ≡ []
      → All (IsOrdinary p) (0x1b ∷ b'[' ∷ b'<' ∷ s)
      → All (λ b. (b == 0x1b) ≡ false) s
      → (process clock (0x1b ∷ b'[' ∷ []) p ≡ (pass_through (0x1b ∷ b'[' ∷ []) ∷ [], p))
        × (process clock (b'<' ∷ s) p ≡ (pass_through (b'<' ∷ s) ∷ [], p))
  process-cut_early s p idle empty h k =
      (whole, process-ordinary b'<' s p idle empty h.1.1 (refl, k))
    where
      whole : process clock (0x1b ∷ b'[' ∷ []) p ≡ (pass_through (0x1b ∷ b'[' ∷ []) ∷ [], p)
      whole =
          unfold process split_chunks starts_mouse in
          rw empty (
            process_chunks-single 0x1b (b'[' ∷ []) (record p { mouse_buf = [] }) idle
              (h.0, (h.1.0, tt)))
