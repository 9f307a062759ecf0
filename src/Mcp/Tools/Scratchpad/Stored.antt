-- ===== src/Mcp/Tools/Scratchpad/Stored.antt =====
-- What is written can be read, after any sequence of writes.
use tttt.Base.{
  ◌≡◌, refl, Bool, true, false, Option, none, some, List, [], ◌∷◌, ◌++◌, if◌then◌else◌, ok, err,
  arith, Bool-cases, inl, inr, ap, ◌∙◌,
}
use tttt.Base.Text.{Text, codes, text_eq, text_eq_iff}
use tttt.Base.Map
use tttt.Base.Map.{get-insert}
use tttt.Mcp.Protocol.{Json, invalid_params}
use tttt.Mcp.Server.{ToolHandler}
use tttt.Mcp.Tools.Scratchpad

-- What a write asks for.
pub record Entry : Type 0 where
  pub append : Bool
  pub key : Text
  pub content : Text

abbrev extended : Bool → Text → Option Text → Text
extended false content old = content
extended true content none = content
extended true content (some old) = old ++ content

-- The content of a key after the writes, if it has some: that of the last write of the key that does
-- not append, and behind it those of the later ones, in order.
unfoldable pub content_of : Text → List Entry → Option Text → Option Text
content_of key [] old = old
content_of key (w ∷ ws) old =
    content_of key ws (if text_eq w.key key then some (extended w.append w.content old) else old)

module _ (J : Json) (as_bool : J.Value → Option Bool) (definitions : List J.Value) where
  abbrev pub pad : ToolHandler J
  pad = Scratchpad.scratchpad J as_bool definitions

  -- The arguments of a write: a missing `append` is false.
  pub record Asks (args : J.Value) (w : Entry) : Type 0 where
    pub key : J.as_str (J.index args (codes "key")) ≡ some w.key
    pub content : J.as_str (J.index args (codes "content")) ≡ some w.content
    pub append : Scratchpad.or_false J (as_bool (J.index args (codes "append"))) ≡ w.append

  abbrev pub AllAsk : List J.Value → List Entry → Type 0
  AllAsk [] [] = Unit
  AllAsk (args ∷ rest) (w ∷ ws) = Asks args w × AllAsk rest ws
  AllAsk [] (w ∷ ws) = ⊥
  AllAsk (args ∷ rest) [] = ⊥

  -- The store after calls of the tool that writes.
  unfoldable pub written : List J.Value → Scratchpad.Store J → Scratchpad.Store J
  written [] store = store
  written (args ∷ rest) store =
      written rest (pad.handle_tool_call (codes "tttt_scratchpad_write") args store).1

  get-write_entry :
      (append : Bool) (key other content : Text) (store : Scratchpad.Store J)
      → Map.get other (Scratchpad.write_entry J append key content store) ≡ (
          if text_eq key other
          then some (extended append content (Map.get other store))
          else Map.get other store)
  unfolding Scratchpad.write_entry
  get-write_entry true key other content store = elim (Bool-cases (text_eq key other)) [
    | inl same ↦ rw (get-insert key other _ store) (ground (arith, text_eq_iff key other))
    | inr differ ↦ rw (get-insert key other _ store, differ) refl
  ]
  get-write_entry false key other content store = get-insert key other content store

  wrote_entry :
      (a append : Bool) (o p : Option Text) (key content : Text) (store : Scratchpad.Store J)
      → o ≡ some key
      → p ≡ some content
      → a ≡ append
      → (Scratchpad.written J a o p store).1 ≡ Scratchpad.write_entry J append key content store
  wrote_entry a append o p key content store h k e = rw (h, k, e) refl

  get-call :
      (args : J.Value) (w : Entry) (key : Text) (store : Scratchpad.Store J)
      → Asks args w
      → Map.get key (pad.handle_tool_call (codes "tttt_scratchpad_write") args store).1 ≡ (
          if text_eq w.key key
          then some (extended w.append w.content (Map.get key store))
          else Map.get key store)
  unfolding Scratchpad.handle_scratchpad_write text_eq
  get-call args w key store h =
      ap (Map.get key) (wrote_entry _ w.append _ _ w.key w.content store h.key h.content h.append)
      ∙ get-write_entry w.append w.key key w.content store

  get-written :
      (calls : List J.Value) (ws : List Entry) (key : Text) (store : Scratchpad.Store J)
      → AllAsk calls ws
      → Map.get key (written calls store) ≡ content_of key ws (Map.get key store)
  unfolding written content_of
  get-written [] [] key store h = refl
  get-written [] (w ∷ ws) key store h = absurd h
  get-written (args ∷ rest) [] key store h = absurd h
  get-written (args ∷ rest) (w ∷ ws) key store h =
      get-written rest ws key _ h.1 ∙ ap (content_of key ws) (get-call args w key store h.0)

  -- After any writes to an empty scratchpad whose keys and contents are given, and where a missing
  -- `append` is false: a read of a given key answers with the content of the last write of the key
  -- that does not append, or nothing where each does, and behind it those of the later writes of
  -- the key, in order; or with an error where there is no write of it.
  pub read_after_writes :
      (calls : List J.Value) (ws : List Entry) (read_args : J.Value) (key : Text)
      → AllAsk calls ws
      → J.as_str (J.index read_args (codes "key")) ≡ some key
      → (pad.handle_tool_call (codes "tttt_scratchpad_read") read_args (written calls [])).0
        ≡ elim (content_of key ws none) [
          | none ↦ err (invalid_params (codes "scratchpad key not found: " ++ key))
          | some content ↦ ok (J.object ((codes "content", J.string content) ∷ []))
        ]
  unfolding Scratchpad.handle_scratchpad_read text_eq Map.get
  read_after_writes calls ws read_args key h r =
      ap (Scratchpad.asked_for J (written calls [])) r
      ∙ ap (Scratchpad.found J key) (get-written calls ws key [] h)
