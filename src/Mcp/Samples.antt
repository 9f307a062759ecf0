-- ===== src/Mcp/Samples.antt =====
-- Watchers on small screens, with patterns that match what they begin.
use tttt.Base.{◌≡◌, refl, true, false, none, some, [], ◌∷◌, ok, Option, Bool}
use tttt.Base.Text.{Text, codes, strip_prefix}
use tttt.Mcp.Notification
use tttt.Mcp.Notification.{Regex, NotificationWatcher, NotificationRegistry}
use tttt.Mcp.Notification.Once.{check_session_twice}

abbrev is_some : Option Text → Bool
is_some none = false
is_some (some t) = true

abbrev prefixes : Regex
prefixes = record {
  Compiled = Text;
  new = λ pattern. ok pattern;
  is_match = λ pattern text. is_some (strip_prefix pattern text);
}

-- A repeating watcher of one session and a one-shot watcher of the whole screen of another.
abbrev repeating : NotificationWatcher prefixes
repeating = record {
  id = codes "notify-1";
  watch_session_id = codes "pty-1";
  pattern = codes "done";
  compiled = some (codes "done");
  inject_text = codes "go on";
  inject_session_id = codes "pty-2";
  one_shot = false;
  fired = false;
  last_screen = some (codes "$ ");
  match_whole_screen = false;
}

abbrev readiness : NotificationWatcher prefixes
readiness = record repeating {
  id = codes "notify-2";
  watch_session_id = codes "pty-3";
  one_shot = true;
  match_whole_screen = true;
}

abbrev registry : NotificationRegistry prefixes
registry = record { watchers = repeating ∷ readiness ∷ []; next_id = 3 }

check_session_twice_example :
    (Notification.check_session prefixes
      (codes "pty-1")
      (codes "$ done")
      (Notification.check_session prefixes (codes "pty-1") (codes "$ done") registry).1).0
    ≡ []
check_session_twice_example =
    check_session_twice prefixes (codes "pty-1") (codes "$ done") registry (refl, (refl, tt))
