-- ===== src/Mcp/Server/Answers.antt =====
-- What the server answers over a whole input.
use tttt.Base.{
  ◌≡◌, refl, Bool, true, false, not, Option, none, some, List, [], ◌∷◌, ◌++◌, map, if◌then◌else◌,
  is_empty, Result, ok, err, All, Bool-cases, Option-cases, Result-cases, inl, inr, arith,
}
use tttt.Base.Text.{Text}
use tttt.Base.Space.{trim}
use tttt.Mcp.Protocol.{Json, Request, Response, McpError, success, failure}
use tttt.Mcp.Server
use tttt.Mcp.Server.{ToolHandler, McpServer, Round}

abbrev is_some {ℓ} : {A : Type ℓ} → Option A → Bool
is_some none = false
is_some (some a) = true

-- A response has either a result or an error.
abbrev pub IsOne : {Value : Type 0} → Response Value → Type 0
IsOne r = is_some r.error ≡ not (is_some r.result)

-- A round without errors.
abbrev pub fine : Text → Round
fine line = record { read = ok line; write_error = none; flush_error = none }

-- The lines in front of the first error of the reader.
unfoldable pub lines_read : List Round → List Text
lines_read [] = []
lines_read (r ∷ rounds) = elim r.read [ err why ↦ [] | ok line ↦ line ∷ lines_read rounds ]

module _ (J : Json) (T : ToolHandler J) where
  -- The identifier of the answer that a line asks for: null for a line that is no request, and none
  -- for a notification.
  abbrev pub asked : Option (Request J.Value) → Option J.Value
  asked none = some J.null
  asked (some request) = request.id

  abbrev cons : Option J.Value → List J.Value → List J.Value
  cons none ids = ids
  cons (some id) ids = id ∷ ids

  -- Over the lines that are not blank.
  unfoldable pub asked_ids : List Text → List J.Value
  asked_ids [] = []
  asked_ids (line ∷ lines) =
      let rest = asked_ids lines in
      if is_empty (trim line) then rest else cons (asked (J.parse_request (trim line))) rest

  respond-IsOne : (id : J.Value) (r : Result McpError J.Value) → IsOne (Server.respond J T id r)
  unfolding success failure
  respond-IsOne id (ok value) = refl
  respond-IsOne id (err e) = refl

  id-respond : (id : J.Value) (r : Result McpError J.Value) → (Server.respond J T id r).id ≡ id
  unfolding success failure
  id-respond id (ok value) = refl
  id-respond id (err e) = refl

  -- An answer as it was asked for.
  abbrev Answers : Option J.Value → Option (Response J.Value) → Type 0
  Answers none none = Unit
  Answers (some id) (some r) = (r.id ≡ id) × IsOne r
  Answers _ _ = ⊥

  answer-Answers :
      (request : Request J.Value) (o : Option J.Value) (server : McpServer J T)
      → Answers o (Server.answer J T request o server).0
  answer-Answers request none server = tt
  answer-Answers request (some id) server =
      let result = (Server.dispatch J T request server).0 in
      (id-respond id result, respond-IsOne id result)

  reply-Answers :
      (o : Option (Request J.Value)) (server : McpServer J T)
      → Answers (asked o) (Server.reply J T o server).0
  unfolding failure
  reply-Answers none server = (refl, refl)
  reply-Answers (some request) server = answer-Answers request request.id server

  process_line-Answers :
      (line : Text) (server : McpServer J T)
      → Answers (asked (J.parse_request line)) (Server.process_line J T line server).0
  unfolding Server.process_line
  process_line-Answers line server = reply-Answers (J.parse_request line) server

  abbrev CutShort : List J.Value → List (Response J.Value) → Type 0
  CutShort ids out = ((rest : List J.Value) × (map (λ r. r.id) out ++ rest ≡ ids)) × All IsOne out

  cons-append :
      (o : Option J.Value) (a : Option (Response J.Value)) (r : Round) (server : McpServer J T)
      (done : Server.Run J T) (ids : List J.Value)
      → Answers o a
      → CutShort ids done.1
      → CutShort (cons o ids) (Server.written J T r a server done).1
  cons-append none none r server done ids h k = k
  cons-append (some id) (some a) r server (result, out, server') ids h ((rest, k), one) =
      elim (Option-cases r.write_error) [
        | inr (why, refused) ↦ rw refused ((id ∷ ids, refl), tt)
        | inl sent ↦ elim (Option-cases r.flush_error) [
          | inr (why, stuck) ↦ rw (sent, stuck) ((ids, ground (arith, h.0)), (h.1, tt))
          | inl flushed ↦ rw (sent, flushed) ((rest, ground (arith, k, h.0)), (h.1, one))
        ]
      ]
  cons-append none (some a) r server done ids h k = absurd h
  cons-append (some id) none r server done ids h k = absurd h

  -- Whatever the reader and the writer do: the responses written in full answer the lines read that
  -- ask for an answer, in order, from the first on and none left out between them. A line asks for
  -- one unless it is blank or a notification. Each response has either a result or an error.
  pub run_in_order :
      (rounds : List Round) (server : McpServer J T)
      → ((rest : List J.Value) × (map (λ r. r.id) (Server.run J T rounds server).1 ++ rest
            ≡ asked_ids (lines_read rounds)))
        × All IsOne (Server.run J T rounds server).1
  unfolding Server.run asked_ids lines_read
  run_in_order [] server = (([], refl), tt)
  run_in_order (r ∷ rounds) server = elim (Result-cases r.read) [
    | inr (why, failed) ↦ rw failed (([], refl), tt)
    | inl (line, here) ↦ elim (Bool-cases (is_empty (trim line))) [
      | inl blank ↦ rw (here, blank) (run_in_order rounds server)
      | inr full ↦
          let server' = (Server.process_line J T (trim line) server).1 in
          rw (here, full)
            (cons-append (asked (J.parse_request (trim line)))
              (Server.process_line J T (trim line) server).0 r server' _ _
              (process_line-Answers (trim line) server) (run_in_order rounds server'))
    ]
  ]

  written-cons :
      (o : Option J.Value) (a : Option (Response J.Value)) (line : Text) (server : McpServer J T)
      (done : Server.Run J T) (ids : List J.Value)
      → Answers o a
      → (done.0 ≡ ok tt) × (map (λ r. r.id) done.1 ≡ ids) × All IsOne done.1
      → let all = Server.written J T (fine line) a server done in
        (all.0 ≡ ok tt) × (map (λ r. r.id) all.1 ≡ cons o ids) × All IsOne all.1
  written-cons none none line server done ids h k = k
  written-cons (some id) (some a) line server (result, out, server') ids h (end, k, one) =
      (end, ground (arith, k, h.0), (h.1, one))
  written-cons none (some a) line server done ids h k = absurd h
  written-cons (some id) none line server done ids h k = absurd h

  -- Where reading and writing do not fail, the loop succeeds: each line that is not blank is answered
  -- once, in order, with the identifier of its request, or null where it is no request; a
  -- notification is not answered. Each answer has either a result or an error.
  pub run_answers :
      (lines : List Text) (server : McpServer J T)
      → let all = Server.run J T (map fine lines) server in
        (all.0 ≡ ok tt) × (map (λ r. r.id) all.1 ≡ asked_ids lines) × All IsOne all.1
  unfolding Server.run asked_ids
  run_answers [] server = (refl, refl, tt)
  run_answers (line ∷ lines) server = elim (Bool-cases (is_empty (trim line))) [
    | inl blank ↦ rw blank (run_answers lines server)
    | inr full ↦
        let server' = (Server.process_line J T (trim line) server).1 in
        rw full (
          written-cons (asked (J.parse_request (trim line)))
            (Server.process_line J T (trim line) server).0 line server' _ _
            (process_line-Answers (trim line) server) (run_answers lines server'))
  ]
