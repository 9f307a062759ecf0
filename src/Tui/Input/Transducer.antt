-- ===== src/Tui/Input/Transducer.antt =====
-- The prefix-key state machine as a transducer of single bytes. The events of a read may be cut
-- into reads anywhere: only the grouping of the bytes that pass through changes.
use tttt.Base.{
  ℕ, ◌+◌, ◌≡◌, refl, true, false, Option, none, some, List, [], ◌∷◌, ◌++◌, map, ◌==◌, if◌then◌else◌,
  arith, ap, sym, ◌∙◌, append_assoc, append-nil, Option-cases, inl, inr,
}
use tttt.Tui.Input.{
  InputParser, InputEvent, pass_through, show_ctrl_c_hint, command, record_press, flush, Scan,
  scan_byte, scan_bytes, process_raw_bytes,
}

-- What reaches the program: a byte for the terminal, or an event.
pub data Item : Type 0 where
  byte : ℕ → Item
  event : InputEvent → Item

unfoldable pub items_of : InputEvent → List Item
items_of (pass_through bytes) = map byte bytes
items_of e = event e ∷ []

unfoldable pub flatten : List InputEvent → List Item
flatten [] = []
flatten (e ∷ es) = items_of e ++ flatten es

flatten-append : (xs ys : List InputEvent) → flatten (xs ++ ys) ≡ flatten xs ++ flatten ys
unfolding flatten
flatten-append [] ys = refl
flatten-append (e ∷ xs) ys =
    ap (λ l. items_of e ++ l) (flatten-append xs ys) ∙ sym (append_assoc (items_of e) _ _)

map-append_bytes : (xs ys : List ℕ) → map byte (xs ++ ys) ≡ map byte xs ++ map byte ys
map-append_bytes [] ys = refl
map-append_bytes (x ∷ xs) ys = ap (λ l. byte x ∷ l) (map-append_bytes xs ys)

flatten-flush :
    (events : List InputEvent) (bytes : List ℕ)
    → flatten (flush events bytes) ≡ flatten events ++ map byte bytes
flatten-flush events [] = sym (append-nil _)
flatten-flush events (c ∷ cs) =
    flatten-append events (pass_through (c ∷ cs) ∷ [])
    ∙ ap (λ l. flatten events ++ l) (unfold flatten items_of in append-nil (map byte (c ∷ cs)))

flatten-single : (e : InputEvent) → flatten (e ∷ []) ≡ items_of e
unfolding flatten
flatten-single e = append-nil (items_of e)

hinted :
    flatten (pass_through (3 ∷ []) ∷ show_ctrl_c_hint ∷ []) ≡ byte 3 ∷ event show_ctrl_c_hint ∷ []
unfolding flatten items_of
hinted = refl

seen_byte :
    (events : List InputEvent) (bytes : List ℕ) (c : ℕ)
    → flatten events ++ map byte (bytes ++ c ∷ [])
      ≡ (flatten events ++ map byte bytes) ++ byte c ∷ []
seen_byte events bytes c =
    ap (λ l. flatten events ++ l) (map-append_bytes bytes (c ∷ []))
    ∙ sym (append_assoc (flatten events) (map byte bytes) (byte c ∷ []))

seen_events :
    (events : List InputEvent) (bytes : List ℕ) (more : List InputEvent)
    → flatten (flush events bytes ++ more) ++ []
      ≡ (flatten events ++ map byte bytes) ++ flatten more
seen_events events bytes more =
    append-nil _
    ∙ flatten-append (flush events bytes) more
    ∙ ap (λ l. l ++ flatten more) (flatten-flush events bytes)

abbrev behind_prefix : ℕ → Option InputEvent → InputParser → List Item
behind_prefix c (some e) p = items_of e
behind_prefix c none p = if c == p.config.prefix_key then byte c ∷ [] else []

module _ (clock : ℕ → ℕ) where
  -- One byte: behind the prefix key a command, the key itself for a second prefix key, or nothing;
  -- else the prefix key arms the parser, and any other byte is passed on, Ctrl+C with a hint if
  -- the tracker fires.
  unfoldable pub read_byte : ℕ → InputParser → List Item × InputParser
  read_byte c p =
      if p.prefix_armed
      then (behind_prefix c (command c) p, record p { prefix_armed = false })
      else if c == p.config.prefix_key
      then ([], record p { prefix_armed = true })
      else if c == 3
      then (let (fired, t) = record_press (clock p.readings) p.ctrl_c_tracker in
          (
            byte c ∷ (if fired then event show_ctrl_c_hint ∷ [] else []),
            record p { ctrl_c_tracker = t; readings = p.readings + 1 },
          ))
      else (byte c ∷ [], p)

  unfoldable pub read_bytes : List ℕ → InputParser → List Item × InputParser
  read_bytes [] p = ([], p)
  read_bytes (c ∷ cs) p =
      let (items, p') = read_byte c p in
      let (later, p'') = read_bytes cs p' in (items ++ later, p'')

  abbrev seen : Scan → List Item
  seen s = flatten s.events ++ map byte s.passthrough

  parser-scan_byte : (c : ℕ) (s : Scan) → (scan_byte clock c s).parser ≡ (read_byte c s.parser).1
  unfolding scan_byte read_byte
  parser-scan_byte c s = ground arith

  seen-scan_byte :
      (c : ℕ) (s : Scan) → seen (scan_byte clock c s) ≡ seen s ++ (read_byte c s.parser).0
  unfolding scan_byte read_byte
  seen-scan_byte c s = elim (Option-cases (command c)) [
    | inl other ↦ ground (
      arith,
      seen_byte s.events s.passthrough c,
      seen_byte s.events s.passthrough 3,
      seen_events s.events s.passthrough (pass_through (3 ∷ []) ∷ show_ctrl_c_hint ∷ []),
      hinted,
      append-nil (seen s),
    )
    | inr (e, known) ↦ ground (
      arith,
      seen_byte s.events s.passthrough c,
      seen_byte s.events s.passthrough 3,
      seen_events s.events s.passthrough (e ∷ []),
      seen_events s.events s.passthrough (pass_through (3 ∷ []) ∷ show_ctrl_c_hint ∷ []),
      hinted,
      flatten-single e,
      append-nil (seen s),
    )
  ]

  scan-read_bytes :
      (bytes : List ℕ) (s : Scan)
      → (seen (scan_bytes clock bytes s) ≡ seen s ++ (read_bytes bytes s.parser).0)
        × ((scan_bytes clock bytes s).parser ≡ (read_bytes bytes s.parser).1)
  unfolding scan_bytes read_bytes
  scan-read_bytes [] s = (sym (append-nil (seen s)), refl)
  scan-read_bytes (c ∷ cs) s =
      let ih = scan-read_bytes cs (scan_byte clock c s) in
      let p = parser-scan_byte c s in
      (
        ih.0
            ∙ ap (λ l. l ++ (read_bytes cs (scan_byte clock c s).parser).0) (seen-scan_byte c s)
            ∙ append_assoc (seen s) _ _
            ∙ ap (λ q. seen s ++ ((read_byte c s.parser).0 ++ (read_bytes cs q).0)) p,
        ih.1 ∙ ap (λ q. (read_bytes cs q).1) p,
      )

  -- The events of a read are those of its bytes one by one.
  pub process-read_bytes :
      (bytes : List ℕ) (p : InputParser)
      → (flatten (process_raw_bytes clock bytes p).0 ≡ (read_bytes bytes p).0)
        × ((process_raw_bytes clock bytes p).1 ≡ (read_bytes bytes p).1)
  unfolding process_raw_bytes
  process-read_bytes bytes p =
      let s : Scan = record { parser = p; events = []; passthrough = [] } in
      let t : Scan = scan_bytes clock bytes s in
      let both = scan-read_bytes bytes s in
      (flatten-flush t.events t.passthrough ∙ both.0 ∙ unfold flatten in refl, both.1)

  read_bytes-append :
      (a b : List ℕ) (p : InputParser)
      → ((read_bytes (a ++ b) p).0 ≡ (read_bytes a p).0 ++ (read_bytes b (read_bytes a p).1).0)
        × ((read_bytes (a ++ b) p).1 ≡ (read_bytes b (read_bytes a p).1).1)
  unfolding read_bytes
  read_bytes-append [] b p = (refl, refl)
  read_bytes-append (c ∷ a) b p =
      let ih = read_bytes-append a b (read_byte c p).1 in
      (ap (λ l. (read_byte c p).0 ++ l) ih.0 ∙ sym (append_assoc (read_byte c p).0 _ _), ih.1)

  -- Bytes that arrive in one read or in two are the same items, and leave the same parser: a
  -- command may be cut behind its prefix key.
  pub process_raw-append :
      (a b : List ℕ) (p : InputParser)
      → let p' = (process_raw_bytes clock a p).1 in
        (flatten (process_raw_bytes clock (a ++ b) p).0
          ≡ flatten (process_raw_bytes clock a p).0 ++ flatten (process_raw_bytes clock b p').0)
        × ((process_raw_bytes clock (a ++ b) p).1 ≡ (process_raw_bytes clock b p').1)
  process_raw-append a b p =
      let whole = process-read_bytes (a ++ b) p in
      let first = process-read_bytes a p in
      let second = process-read_bytes b (process_raw_bytes clock a p).1 in
      let cut = read_bytes-append a b p in
      (cc (whole.0, first.0, first.1, second.0, cut.0), cc (whole.1, first.1, second.1, cut.1))
