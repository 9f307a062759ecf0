-- ===== src/Mcp/Proxy/Relay.antt =====
-- What reaches the standard output, whatever becomes of the socket.
use tttt.Base.{
  ℕ, zero, suc, ◌*◌, ◌≡◌, refl, Bool, true, false, List, [], ◌∷◌, ◌++◌, Result, ok, err, min, ap,
  sym, ◌∙◌, Bool-cases, inl, inr, append_assoc, append-nil,
}
use tttt.Base.Text.{Text}
use mathlib.Core.Path.{subst}
use tttt.Mcp.Proxy
use tttt.Mcp.Proxy.{
  Net, Proxy, ProxyEvent, stdin_line, stdin_eof, socket_response, socket_error, from_be_bytes,
  to_be_bytes,
}

-- Standard output takes all that a successful write is given, and nothing else writes to it.
pub record Prints (N : Net) : Type 0 where
  pub printed : N.World → List ℕ
  pub print_adds :
      (bytes : List ℕ) (w w' : N.World)
      → N.print bytes w ≡ (ok tt, w')
      → printed w' ≡ printed w ++ bytes
  pub flush_out_quiet : (w : N.World) → printed (N.flush_out w).1 ≡ printed w
  pub connect_quiet : (w : N.World) → printed (N.connect w).1 ≡ printed w
  pub write_all_quiet :
      (bytes : List ℕ) (s : N.Stream) (w : N.World) → printed (N.write_all bytes s w).1 ≡ printed w
  pub flush_quiet : (s : N.Stream) (w : N.World) → printed (N.flush s w).1 ≡ printed w
  pub read_quiet :
      (n : ℕ) (s : N.Stream) (w : N.World) → printed (N.read_exactly n s w).1 ≡ printed w
  pub clone_quiet : (s : N.Stream) (w : N.World) → printed (N.try_clone s w).1 ≡ printed w
  pub spawn_quiet : (s : N.Stream) (w : N.World) → printed (N.spawn_reader s w) ≡ printed w
  pub shutdown_quiet : (s : N.Stream) (w : N.World) → printed (N.shutdown_write s w) ≡ printed w
  pub sleep_quiet : (ms : ℕ) (w : N.World) → printed (N.sleep ms w) ≡ printed w

module _ (N : Net) (P : Prints N) where
  abbrev Quiet : {A : Type 0} → N.World → Result Text A × N.World → Type 0
  Quiet w r = P.printed r.1 ≡ P.printed w

  and_then-Quiet :
      {A B : Type 0} (w : N.World) (r : Result Text A × N.World)
      (k : A → N.World → Result Text B × N.World)
      → Quiet w r
      → ((a : A) (v : N.World) → Quiet v (k a v))
      → Quiet w (Proxy.and_then N r k)
  unfolding Proxy.and_then
  and_then-Quiet w (err e, v) k h later = h
  and_then-Quiet w (ok a, v) k h later = later a v ∙ h

  or_later-Quiet :
      (w : N.World) (later : N.World → Result Text N.Stream × N.World)
      (r : Result Text N.Stream × N.World)
      → Quiet w r
      → ((v : N.World) → Quiet v (later v))
      → Quiet w (Proxy.or_later N later r)
  or_later-Quiet w later (ok s, v) h k = h
  or_later-Quiet w later (err e, v) h k = k v ∙ h

  connect_from-Quiet : (n delay : ℕ) (w : N.World) → Quiet w (Proxy.connect_from N n delay w)
  unfolding Proxy.connect_from
  connect_from-Quiet zero delay w = refl
  connect_from-Quiet (suc zero) delay w = P.connect_quiet w
  connect_from-Quiet (suc (suc n)) delay w =
      or_later-Quiet w _ (N.connect w) (P.connect_quiet w) λ v.
        connect_from-Quiet (suc n) (min (delay * 2) 2000) (N.sleep delay v) ∙ P.sleep_quiet delay v

  connect_with_retry-Quiet : (n : ℕ) (w : N.World) → Quiet w (Proxy.connect_with_retry N n w)
  unfolding Proxy.connect_with_retry
  connect_with_retry-Quiet n w = connect_from-Quiet n 100 w

  write_request-Quiet :
      (bytes : List ℕ) (s : N.Stream) (w : N.World) → Quiet w (Proxy.write_request N bytes s w)
  unfolding Proxy.write_request
  write_request-Quiet bytes s w =
      and_then-Quiet w _ _ (P.write_all_quiet _ s w)
        λ _ w1. and_then-Quiet w1 _ _ (P.write_all_quiet bytes s w1) λ _ w2. P.flush_quiet s w2

  send_and_receive-Quiet :
      (bytes : List ℕ) (b : Bool) (s : N.Stream) (w : N.World)
      → Quiet w (Proxy.send_and_receive N bytes b s w)
  unfolding Proxy.send_and_receive
  send_and_receive-Quiet bytes true s w =
      and_then-Quiet w _ _ (write_request-Quiet bytes s w) λ _ w1. refl
  send_and_receive-Quiet bytes false s w =
      and_then-Quiet w _ _ (write_request-Quiet bytes s w) λ _ w1.
        and_then-Quiet w1 _ _ (P.read_quiet 4 s w1)
          λ header w2. and_then-Quiet w2 _ _ (P.read_quiet (from_be_bytes header) s w2) λ _ w3. refl

  reinitialize-Quiet : (s : N.Stream) (w : N.World) → Quiet w (Proxy.reinitialize N s w)
  unfolding Proxy.reinitialize
  reinitialize-Quiet s w =
      and_then-Quiet w _ _ (send_and_receive-Quiet _ false s w)
        λ _ w1. and_then-Quiet w1 _ _ (send_and_receive-Quiet _ true s w1) λ _ w2. refl

  with_reader-Quiet :
      (p : Proxy N) (w : N.World) (r : Result Text N.Stream × N.World)
      → Quiet w r
      → Quiet w (Proxy.with_reader N p r)
  with_reader-Quiet p w (err e, v) h = h
  with_reader-Quiet p w (ok s, v) h = P.spawn_quiet s v ∙ h

  -- A step keeps what was printed, but for what it adds.
  abbrev Adds : List ℕ → N.World → N.World → Type 0
  Adds bytes w w' = P.printed w' ≡ P.printed w ++ bytes

  Quiet-in_world :
      (p : Proxy N) (w : N.World) (r : Result Text (Unit {0}) × N.World)
      → Quiet w r
      → P.printed (Proxy.in_world N p r).1.world ≡ P.printed w
  Quiet-in_world p w (err e, v) h = h
  Quiet-in_world p w (ok _, v) h = h

  write_again-Quiet :
      (bytes : List ℕ) (p : Proxy N) (s : N.Stream) (w : N.World)
      → Quiet w (Proxy.write_again N bytes p s w)
  unfolding Proxy.write_again
  write_again-Quiet bytes p s w = and_then-Quiet w _ _ (reinitialize-Quiet s w) λ _ w1.
      and_then-Quiet w1 _ _ (with_reader-Quiet p w1 _ (P.clone_quiet s w1))
        λ _ w2. write_request-Quiet bytes s w2

  resent-Quiet :
      (bytes : List ℕ) (p : Proxy N) (w : N.World) (r : Result Text N.Stream × N.World)
      → Quiet w r
      → P.printed (Proxy.resent N bytes p r).1.world ≡ P.printed w
  resent-Quiet bytes p w (err e, v) h = h
  resent-Quiet bytes p w (ok s, v) h =
      Quiet-in_world (record p { socket = s }) w (Proxy.write_again N bytes p s v)
        (write_again-Quiet bytes p s v ∙ h)

  requested-Quiet :
      (bytes : List ℕ) (p : Proxy N) (w : N.World) (r : Result Text (Unit {0}) × N.World)
      → Quiet w r
      → P.printed (Proxy.requested N bytes p r).1.world ≡ P.printed w
  requested-Quiet bytes p w (ok _, v) h = h
  requested-Quiet bytes p w (err e, v) h =
      resent-Quiet bytes p v _ (connect_with_retry-Quiet Proxy.max_reconnect_attempts v) ∙ h

  reader_again-Quiet :
      (p : Proxy N) (w : N.World) (r : Result Text (Unit {0}) × N.World)
      → Quiet w r
      → P.printed (Proxy.reader_again N p r).world ≡ P.printed w
  reader_again-Quiet p w (err e, v) h = h
  reader_again-Quiet p w (ok _, v) h = with_reader-Quiet p v _ (P.clone_quiet p.socket v) ∙ h

  reconnected-Quiet :
      (p : Proxy N) (w : N.World) (r : Result Text N.Stream × N.World)
      → Quiet w r
      → P.printed (Proxy.reconnected N p r).world ≡ P.printed w
  reconnected-Quiet p w (err e, v) h = h
  reconnected-Quiet p w (ok s, v) h =
      reader_again-Quiet (record p { socket = s }) v _ (reinitialize-Quiet s v) ∙ h

  -- What an event is worth on standard output.
  abbrev line_of : ProxyEvent → List ℕ
  line_of (socket_response resp) = resp ++ (b'\n' ∷ [])
  line_of _ = []

  unfoldable pub output_of : List ProxyEvent → List ℕ
  output_of [] = []
  output_of (e ∷ es) = line_of e ++ output_of es

  -- Where it succeeds.
  abbrev Printed : List ℕ → N.World → Proxy.Handled N → Type 0
  Printed bytes w (ok _, p) = Adds bytes w p.world
  Printed bytes w (err e, p) = Unit

  Printed-quiet :
      (w : N.World) (h : Proxy.Handled N) → P.printed h.1.world ≡ P.printed w → Printed [] w h
  Printed-quiet w (ok _, p) h = h ∙ sym (append-nil (P.printed w))
  Printed-quiet w (err e, p) h = tt

  flushed :
      (p : Proxy N) (bytes : List ℕ) (w v : N.World) (r : Result Text (Unit {0}) × N.World)
      → Adds bytes w v
      → Quiet v r
      → Printed bytes w (Proxy.in_world N p r)
  flushed p bytes w v (ok _, u) h k = k ∙ h
  flushed p bytes w v (err e, u) h k = tt

  with_newline :
      (p : Proxy N) (bytes : List ℕ) (w v : N.World) (r : Result Text (Unit {0}) × N.World)
      → Adds bytes w v
      → N.print (b'\n' ∷ []) v ≡ r
      → Printed
          (bytes ++ (b'\n' ∷ []))
          w
          (Proxy.in_world N p (Proxy.and_then N r λ _ u. N.flush_out u))
  unfolding Proxy.and_then
  with_newline p bytes w v (ok tt, u) h k =
      flushed p (bytes ++ (b'\n' ∷ [])) w u (N.flush_out u)
        (P.print_adds (b'\n' ∷ []) v u k
          ∙ ap (λ t. t ++ (b'\n' ∷ [])) h
          ∙ append_assoc (P.printed w) bytes (b'\n' ∷ []))
        (P.flush_out_quiet u)
  with_newline p bytes w v (err e, u) h k = tt

  with_response :
      (p : Proxy N) (bytes : List ℕ) (w : N.World) (r : Result Text (Unit {0}) × N.World)
      → N.print bytes w ≡ r
      → Printed (bytes ++ (b'\n' ∷ [])) w (
          Proxy.in_world N p (
            Proxy.and_then N r
              λ _ v. Proxy.and_then N (N.print (b'\n' ∷ []) v) λ _ u. N.flush_out u))
  unfolding Proxy.and_then
  with_response p bytes w (ok tt, v) h =
      with_newline p bytes w v (N.print (b'\n' ∷ []) v) (P.print_adds bytes w v h) refl
  with_response p bytes w (err e, v) h = tt

  handle-Printed : (e : ProxyEvent) (p : Proxy N) → Printed (line_of e) p.world (Proxy.handle N e p)
  unfolding Proxy.handle
  handle-Printed (stdin_line line) p = elim (Bool-cases p.draining) [
    | inl over ↦ simp over (sym (append-nil (P.printed p.world)))
    | inr on ↦ simp on (
        Printed-quiet p.world _
          (requested-Quiet line p p.world _ (write_request-Quiet line p.socket p.world)))
  ]
  handle-Printed (socket_response resp) p = with_response p resp p.world _ refl
  handle-Printed stdin_eof p =
      P.shutdown_quiet p.socket p.world ∙ sym (append-nil (P.printed p.world))
  handle-Printed socket_error p = elim (Bool-cases p.draining) [
    | inl over ↦ simp over (sym (append-nil (P.printed p.world)))
    | inr on ↦ simp on (
        reconnected-Quiet p p.world _
          (connect_with_retry-Quiet Proxy.max_reconnect_attempts p.world)
        ∙ sym (append-nil (P.printed p.world)))
  ]

  go_on-Printed :
      (first later : List ℕ) (w : N.World) (rest : Proxy N → Proxy.Handled N) (h : Proxy.Handled N)
      → Printed first w h
      → ((q : Proxy N) → Printed later q.world (rest q))
      → Printed (first ++ later) w (Proxy.go_on N rest h)
  go_on-Printed first later w rest (err e, p) h k = tt
  go_on-Printed first later w rest (ok _, p) h k = joined (rest p) (k p)
    where
      joined : (r : Proxy.Handled N) → Printed later p.world r → Printed (first ++ later) w r
      joined (err e, q) j = tt
      joined (ok _, q) j = j ∙ ap (λ t. t ++ later) h ∙ append_assoc (P.printed w) first later

  run_proxy-Printed :
      (es : List ProxyEvent) (p : Proxy N) → Printed (output_of es) p.world (Proxy.run_proxy N es p)
  unfolding Proxy.run_proxy output_of
  run_proxy-Printed [] p = sym (append-nil (P.printed p.world))
  run_proxy-Printed (e ∷ es) p =
      go_on-Printed (line_of e) (output_of es) p.world (λ q. Proxy.run_proxy N es q)
        (Proxy.handle N e p) (handle-Printed e p) (λ q. run_proxy-Printed es q)

  -- Where the loop succeeds: whatever connections were lost and made again, standard output was
  -- given the responses of the socket, each followed by a newline, in their order, and nothing else.
  pub run_proxy_relays :
      (es : List ProxyEvent) (p p' : Proxy N)
      → Proxy.run_proxy N es p ≡ (ok tt, p')
      → P.printed p'.world ≡ P.printed p.world ++ output_of es
  run_proxy_relays es p p' h =
      subst (λ r. Printed (output_of es) p.world r) h (run_proxy-Printed es p)
