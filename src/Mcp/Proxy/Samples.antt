-- ===== src/Mcp/Proxy/Samples.antt =====
-- Frames and events on small inputs, with a socket that does nothing.
use tttt.Base.{
  ℕ, ◌<◌, ◌≡◌, refl, Bool, true, false, List, [], ◌∷◌, ◌++◌, map, take, length, Result, ok, err, ap,
  sym, arith,
}
use tttt.Base.Text.{Text, codes}
use tttt.Mcp.Proxy
use tttt.Mcp.Proxy.{
  Net, Proxy, ProxyEvent, socket_response, socket_error, stdin_line, stdin_eof, frame,
  socket_reader,
}
use tttt.Mcp.Proxy.Frames.{frames, socket_reader-frames}
use tttt.Mcp.Proxy.Relay
use tttt.Mcp.Proxy.Relay.{Prints, run_proxy_relays}

frame_size : 5 < length (frame false (codes "cut"))
unfolding frame Proxy.to_be_bytes
frame_size = omega arith

socket_reader-frames_example :
    socket_reader (frames (codes "hi" ∷ [] ∷ []) ++ take 5 (frame false (codes "cut")))
    ≡ map socket_response (codes "hi" ∷ [] ∷ []) ++ (socket_error ∷ [])
socket_reader-frames_example =
    socket_reader-frames (codes "hi" ∷ [] ∷ []) (codes "cut") 5 (omega arith, (omega arith, tt))
      (omega arith) frame_size

abbrev written : Bool → Result Text (Unit {0})
written false = err (codes "broken pipe")
written true = ok tt

-- The world is what was printed. Writes to the socket fail until it is connected again, a stream
-- that is not the first.
abbrev reconnecting : Net
reconnecting = record {
  World = List ℕ;
  Stream = Bool;
  connect = λ w. (ok true, w);
  write_all = λ bytes again w. (written again, w);
  flush = λ s w. (ok tt, w);
  read_exactly = λ n s w. (ok (0 ∷ 0 ∷ 0 ∷ 0 ∷ []), w);
  try_clone = λ s w. (ok s, w);
  spawn_reader = λ s w. w;
  shutdown_write = λ s w. w;
  sleep = λ ms w. w;
  print = λ bytes w. (ok tt, w ++ bytes);
  flush_out = λ w. (ok tt, w);
}

abbrev prints : Prints reconnecting
prints = record {
  printed = λ w. w;
  print_adds = λ bytes w w' h. sym (ap (λ r. r.1) h);
  flush_out_quiet = λ w. refl;
  connect_quiet = λ w. refl;
  write_all_quiet = λ bytes s w. refl;
  flush_quiet = λ s w. refl;
  read_quiet = λ n s w. refl;
  clone_quiet = λ s w. refl;
  spawn_quiet = λ s w. refl;
  shutdown_quiet = λ s w. refl;
  sleep_quiet = λ ms w. refl;
}

abbrev started : Proxy reconnecting
started = record { socket = false; draining = false; world = [] }

abbrev events : List ProxyEvent
events =
    stdin_line (codes "q")
    ∷ socket_response (codes "a")
    ∷ socket_error
    ∷ stdin_eof
    ∷ socket_response (codes "b")
    ∷ []

abbrev ended : Proxy reconnecting
ended = (Proxy.run_proxy reconnecting events started).1

run_ends : Proxy.run_proxy reconnecting events started ≡ (ok tt, ended)
unfolding Proxy.run_proxy Proxy.handle Proxy.write_request Proxy.and_then Proxy.connect_with_retry
    Proxy.connect_from Proxy.write_again Proxy.reinitialize Proxy.send_and_receive
    Proxy.from_be_bytes
run_ends = refl

run_proxy_relays_example : ended.world ≡ started.world ++ Relay.output_of reconnecting prints events
run_proxy_relays_example = run_proxy_relays reconnecting prints events started ended run_ends
