-- ===== src/Mcp/Tools/Samples.antt =====
-- Tools over a JSON of texts: a wait whose session is gone, and a scratchpad.
use tttt.Base.{
  ℕ, zero, suc, ◌+◌, ◌<◌, ◌≡◌, refl, Bool, true, false, Option, none, some, List, [], ◌∷◌, length,
  ◌++◌, ok, err, arith,
}
use tttt.Base.Text.{Text, codes, text_eq}
use tttt.Pty.Backend.{mock}
use tttt.Pty.Plain.{terminal, noon}
use tttt.Pty.Manager
use tttt.Pty.Manager.{SessionManager}
use tttt.Mcp.Notification.{Regex}
use tttt.Mcp.Protocol.{Json, invalid_params}
use tttt.Mcp.Tools.Numbers.{Numbers}
use tttt.Mcp.Tools.WaitFor
use tttt.Mcp.Tools.WaitFor.Returns
use tttt.Mcp.Tools.WaitFor.Returns.{is_some, wait_for_returns}
use tttt.Mcp.Tools.Scratchpad.Stored
use tttt.Mcp.Tools.Scratchpad.Stored.{Entry, content_of, read_after_writes}

-- An object is the text that stands for every key of it.
abbrev texts : Json
texts = record {
  Value = Text;
  null = [];
  string = λ t. t;
  array = λ vs. [];
  object = λ fields. elim fields [ [] ↦ [] | (key, v) ∷ rest ↦ v ];
  index = λ v key. v;
  as_str = λ v. some v;
  to_string = λ v. v;
  parse_request = λ line. none;
}

abbrev numbers : Numbers texts
numbers = record {
  number = λ n. [];
  is_null = λ v. false;
  as_u64 = λ v. some 1_000;
  is_integer_from = λ n v. false;
}

abbrev exact : Regex
exact = record { Compiled = Text; new = λ pattern. ok pattern; is_match = text_eq }

abbrev sessions : SessionManager terminal mock
sessions = Manager.with_max_sessions terminal mock 4

-- Polls from a time on, each 100 milliseconds behind the last.
polls_from : ℕ → ℕ → List (WaitFor.Poll texts numbers exact terminal mock)
polls_from t zero = []
polls_from t (suc n) =
    record { others = λ g. g; cancelled = false; moment = noon; matched_at = t; checked_at = t }
    ∷ polls_from (t + 100_000_000) n

Paced-polls_from : (t n : ℕ) → Returns.Paced texts numbers exact terminal mock t (polls_from t n)
unfolding polls_from
Paced-polls_from t zero = tt
Paced-polls_from t (suc n) = (omega arith, Paced-polls_from (t + 100_000_000) n)

length-polls_from : (t n : ℕ) → length (polls_from t n) ≡ n
unfolding polls_from
length-polls_from t zero = refl
length-polls_from t (suc n) = omega (arith, length-polls_from (t + 100_000_000) n)

many_polls : 864_000 < length (polls_from 5 864_001)
many_polls = rw (length-polls_from 5 864_001) (omega arith)

wait_for_returns_example :
    is_some
      (WaitFor.handle_pty_wait_for texts numbers exact terminal mock
        (codes "pty-1")
        5
        (polls_from 5 864_001)
        sessions).0
    ≡ true
wait_for_returns_example =
    wait_for_returns texts numbers exact terminal mock (codes "pty-1") 5 (polls_from 5 864_001)
      sessions (Paced-polls_from 5 864_001) many_polls

abbrev yes : Text → Option Bool
yes v = some true

-- Each text is the key and the content of its write.
abbrev writes : List Entry
writes =
    record { append = true; key = codes "a"; content = codes "a" }
    ∷ record { append = true; key = codes "b"; content = codes "b" }
    ∷ record { append = true; key = codes "a"; content = codes "a" }
    ∷ []

abbrev write_calls : List Text
write_calls = codes "a" ∷ codes "b" ∷ codes "a" ∷ []

writes_asked : Stored.AllAsk texts yes [] write_calls writes
writes_asked = (
  record { key = refl; content = refl; append = refl },
  (
    record { key = refl; content = refl; append = refl },
    (record { key = refl; content = refl; append = refl }, tt),
  ),
)

read_after_writes_example :
    ((Stored.pad texts yes []).handle_tool_call
      (codes "tttt_scratchpad_read")
      (codes "a")
      (Stored.written texts yes [] write_calls [])).0
    ≡ elim (content_of (codes "a") writes none) [
      | none ↦ err (invalid_params (codes "scratchpad key not found: " ++ codes "a"))
      | some content ↦ ok (texts.object ((codes "content", texts.string content) ∷ []))
    ]
read_after_writes_example =
    read_after_writes texts yes [] write_calls writes (codes "a") (codes "a") writes_asked refl

content_a : content_of (codes "a") writes none ≡ some (codes "aa")
unfolding content_of text_eq
content_a = refl
