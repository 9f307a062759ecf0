-- ===== src/Mcp/Proxy.antt =====
-- crates/tttt-mcp/src/proxy.rs: framing, reconnecting and the loop over the events of its threads.
-- Sockets, the standard output and time are a parameter. The loop is that of the binary framing
-- (`debug_protocol` off), and its events are in the order in which the channel delivers them.
pub mod Frames
pub mod Relay
mod Samples
use tttt.Base.{
  ℕ, zero, suc, ◌+◌, ◌*◌, ◌/◌, ◌%◌, ◌^◌, Bool, true, false, Option, none, some, List, [], ◌∷◌, ◌++◌,
  ltb, leb, if◌then◌else◌, length, take, drop, Result, ok, err, min,
}
use tttt.Base.Text.{Text, codes}

-- `u32::to_be_bytes` of a length, which the cast takes modulo 2^32.
unfoldable pub to_be_bytes : ℕ → List ℕ
to_be_bytes n = n / 2 ^ 24 % 256 ∷ n / 2 ^ 16 % 256 ∷ n / 2 ^ 8 % 256 ∷ n % 256 ∷ []

unfoldable pub from_be_bytes : List ℕ → ℕ
from_be_bytes (a ∷ b ∷ c ∷ d ∷ rest) = a * 2 ^ 24 + b * 2 ^ 16 + c * 2 ^ 8 + d
from_be_bytes _ = 0

-- `read_exact`: the bytes and what follows them, or `none` where the stream ends before.
unfoldable pub read_exact : ℕ → List ℕ → Option (List ℕ × List ℕ)
read_exact n bytes = if leb n (length bytes) then some (take n bytes, drop n bytes) else none

-- A request, and a response, in either framing.
unfoldable pub frame : Bool → List ℕ → List ℕ
frame true bytes = bytes ++ (b'\n' ∷ [])
frame false bytes = to_be_bytes (length bytes) ++ bytes

pub data ProxyEvent : Type 0 where
  stdin_line : Text → ProxyEvent
  stdin_eof : ProxyEvent
  socket_response : List ℕ → ProxyEvent
  socket_error : ProxyEvent

abbrev pub Cut : Type 0
Cut = Option (List ℕ × List ℕ)

abbrev pub event_of : (List ℕ → List ProxyEvent) → Cut → List ProxyEvent
event_of rest none = socket_error ∷ []
event_of rest (some (message, bytes)) = socket_response message ∷ rest bytes

abbrev pub body_of : Cut → Cut
body_of none = none
body_of (some (header, bytes)) = read_exact (from_be_bytes header) bytes

-- The thread that reads the socket, over all that the socket delivers before it ends. A round reads
-- a frame, which has four bytes at least.
unfoldable pub read_frames : ℕ → List ℕ → List ProxyEvent
read_frames zero bytes = socket_error ∷ []
read_frames (suc rounds) bytes =
    event_of (λ rest. read_frames rounds rest) (body_of (read_exact 4 bytes))

abbrev pub socket_reader : List ℕ → List ProxyEvent
socket_reader bytes = read_frames (length bytes) bytes

-- What the code calls of sockets, standard output and time. An error is its message.
pub record Net : Type 1 where
  pub World : Type 0
  pub Stream : Type 0
  pub connect : World → Result Text Stream × World
  pub write_all : List ℕ → Stream → World → Result Text (Unit {0}) × World
  pub flush : Stream → World → Result Text (Unit {0}) × World
  pub read_exactly : ℕ → Stream → World → Result Text (List ℕ) × World
  pub try_clone : Stream → World → Result Text Stream × World
  pub spawn_reader : Stream → World → World
  pub shutdown_write : Stream → World → World
  pub sleep : ℕ → World → World
  -- standard output: `write_all` and `flush`
  pub print : List ℕ → World → Result Text (Unit {0}) × World
  pub flush_out : World → Result Text (Unit {0}) × World

abbrev pub max_reconnect_attempts : ℕ
max_reconnect_attempts = 30

module _ (N : Net) where
  abbrev pub Io : Type 0 → Type 0
  Io A = N.World → Result Text A × N.World

  -- `?` of an operation on the world.
  unfoldable pub and_then :
      {A B : Type 0} → Result Text A × N.World → (A → Io B) → Result Text B × N.World
  and_then (err e, w) k = (err e, w)
  and_then (ok a, w) k = k a w

  -- A last attempt tells its error; the delay doubles up to two seconds.
  abbrev pub or_later :
      (N.World → Result Text N.Stream × N.World)
      → Result Text N.Stream × N.World
      → Result Text N.Stream × N.World
  or_later later (ok stream, w) = (ok stream, w)
  or_later later (err e, w) = later w

  unfoldable pub connect_from : ℕ → ℕ → Io N.Stream
  connect_from zero delay_ms w = (err (codes "max reconnect attempts exceeded"), w)
  connect_from (suc zero) delay_ms w = N.connect w
  connect_from (suc (suc n)) delay_ms w =
      or_later (λ v. connect_from (suc n) (min (delay_ms * 2) 2000) (N.sleep delay_ms v))
        (N.connect w)

  unfoldable pub connect_with_retry : ℕ → Io N.Stream
  connect_with_retry attempts w = connect_from attempts 100 w

  -- The closure `write_request`, with binary framing.
  unfoldable pub write_request : List ℕ → N.Stream → Io (Unit {0})
  write_request bytes socket w =
      and_then (N.write_all (to_be_bytes (length bytes)) socket w)
        λ _ w1. and_then (N.write_all bytes socket w1) λ _ w2. N.flush socket w2

  unfoldable pub send_and_receive : List ℕ → Bool → N.Stream → Io (Option (List ℕ))
  send_and_receive bytes is_notification socket w = and_then (write_request bytes socket w) λ _ w1.
      if is_notification
      then (ok none, w1)
      else and_then (N.read_exactly 4 socket w1) λ header w2.
        and_then (N.read_exactly (from_be_bytes header) socket w2) λ body w3. (ok (some body), w3)

  abbrev init_request : List ℕ
  init_request =
      codes
        "{\"jsonrpc\":\"2.0\",\"id\":\"_reconnect_init\",\"method\":\"initialize\",\"params\":{}}"

  abbrev initialized_request : List ℕ
  initialized_request =
      codes "{\"jsonrpc\":\"2.0\",\"id\":null,\"method\":\"initialized\",\"params\":{}}"

  unfoldable pub reinitialize : N.Stream → Io (Unit {0})
  reinitialize socket w =
      and_then (send_and_receive init_request false socket w)
        λ _ w1. and_then (send_and_receive initialized_request true socket w1) λ _ w2. (ok tt, w2)

  pub record Proxy : Type 0 where
    pub socket : N.Stream
    pub draining : Bool
    pub world : N.World

  abbrev pub Handled : Type 0
  Handled = Result Text (Unit {0}) × Proxy

  abbrev pub in_world : Proxy → Result Text (Unit {0}) × N.World → Handled
  in_world p (result, w) = (result, record p { world = w })

  abbrev pub with_reader : Proxy → Result Text N.Stream × N.World → Result Text (Unit {0}) × N.World
  with_reader p (err e, w) = (err e, w)
  with_reader p (ok stream, w) = (ok tt, N.spawn_reader stream w)

  -- Behind a new connection for a line: the session is initialised again, a thread reads it, and
  -- the line is written a second time.
  unfoldable pub write_again : List ℕ → Proxy → N.Stream → Io (Unit {0})
  write_again bytes p socket w =
      and_then (reinitialize socket w) λ _ w1.
        and_then (with_reader p (N.try_clone socket w1)) λ _ w2. write_request bytes socket w2

  abbrev pub resent : List ℕ → Proxy → Result Text N.Stream × N.World → Handled
  resent bytes p (err e, w) = (err e, record p { world = w })
  resent bytes p (ok socket, w) =
      in_world (record p { socket = socket }) (write_again bytes p socket w)

  abbrev pub requested : List ℕ → Proxy → Result Text (Unit {0}) × N.World → Handled
  requested bytes p (ok _, w) = (ok tt, record p { world = w })
  requested bytes p (err e, w) = resent bytes p (connect_with_retry max_reconnect_attempts w)

  -- Its errors are ignored.
  abbrev pub reader_again : Proxy → Result Text (Unit {0}) × N.World → Proxy
  reader_again p (err e, w) = record p { world = w }
  reader_again p (ok _, w) = record p { world = (with_reader p (N.try_clone p.socket w)).1 }

  abbrev pub reconnected : Proxy → Result Text N.Stream × N.World → Proxy
  reconnected p (err e, w) = record p { world = w }
  reconnected p (ok socket, w) = reader_again (record p { socket = socket }) (reinitialize socket w)

  -- The body of the loop.
  unfoldable pub handle : ProxyEvent → Proxy → Handled
  handle (stdin_line line) p =
      if p.draining then (ok tt, p) else requested line p (write_request line p.socket p.world)
  handle (socket_response resp) p = in_world p (
      and_then (N.print resp p.world)
        λ _ w1. and_then (N.print (b'\n' ∷ []) w1) λ _ w2. N.flush_out w2)
  handle stdin_eof p =
      (ok tt, record p { draining = true; world = N.shutdown_write p.socket p.world })
  handle socket_error p =
      if p.draining
      then (ok tt, p)
      else (ok tt, reconnected p (connect_with_retry max_reconnect_attempts p.world))

  abbrev pub go_on : (Proxy → Handled) → Handled → Handled
  go_on rest (err e, p) = (err e, p)
  go_on rest (ok _, p) = rest p

  -- The loop, over the events up to the closing of the channel.
  unfoldable pub run_proxy : List ProxyEvent → Proxy → Handled
  run_proxy [] p = (ok tt, p)
  run_proxy (e ∷ es) p = go_on (λ q. run_proxy es q) (handle e p)
