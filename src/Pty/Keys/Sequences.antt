-- ===== src/Pty/Keys/Sequences.antt =====
-- `bracket_sequence` of crates/tttt-pty/src/keys.rs: the names of keys and their byte sequences.
use tttt.Base.{ℕ, Option, List, [], ◌∷◌}
use tttt.Base.Text.{Text, codes}
use tttt.Base.Map

-- The arms of the match, in the order of the source.
abbrev table : List (Text × List ℕ)
table =
    (codes "UP", 0x1b ∷ b'[' ∷ b'A' ∷ [])
    ∷ (codes "DOWN", 0x1b ∷ b'[' ∷ b'B' ∷ [])
    ∷ (codes "RIGHT", 0x1b ∷ b'[' ∷ b'C' ∷ [])
    ∷ (codes "LEFT", 0x1b ∷ b'[' ∷ b'D' ∷ [])
    ∷ (codes "HOME", 0x1b ∷ b'[' ∷ b'H' ∷ [])
    ∷ (codes "END", 0x1b ∷ b'[' ∷ b'F' ∷ [])
    ∷ (codes "PGUP", 0x1b ∷ b'[' ∷ b'5' ∷ b'~' ∷ [])
    ∷ (codes "PGDN", 0x1b ∷ b'[' ∷ b'6' ∷ b'~' ∷ [])
    ∷ (codes "DELETE", 0x1b ∷ b'[' ∷ b'3' ∷ b'~' ∷ [])
    ∷ (codes "BACKSPACE", 0x7f ∷ [])
    ∷ (codes "TAB", 0x09 ∷ [])
    ∷ (codes "SHIFT+TAB", 0x1b ∷ b'[' ∷ b'Z' ∷ [])
    ∷ (codes "ENTER", 0x0d ∷ [])
    ∷ (codes "ESCAPE", 0x1b ∷ [])
    ∷ (codes "ESC", 0x1b ∷ [])
    ∷ (codes "F1", 0x1b ∷ b'O' ∷ b'P' ∷ [])
    ∷ (codes "F2", 0x1b ∷ b'O' ∷ b'Q' ∷ [])
    ∷ (codes "F3", 0x1b ∷ b'O' ∷ b'R' ∷ [])
    ∷ (codes "F4", 0x1b ∷ b'O' ∷ b'S' ∷ [])
    ∷ (codes "F5", 0x1b ∷ b'[' ∷ b'1' ∷ b'5' ∷ b'~' ∷ [])
    ∷ (codes "F6", 0x1b ∷ b'[' ∷ b'1' ∷ b'7' ∷ b'~' ∷ [])
    ∷ (codes "F7", 0x1b ∷ b'[' ∷ b'1' ∷ b'8' ∷ b'~' ∷ [])
    ∷ (codes "F8", 0x1b ∷ b'[' ∷ b'1' ∷ b'9' ∷ b'~' ∷ [])
    ∷ (codes "F9", 0x1b ∷ b'[' ∷ b'2' ∷ b'0' ∷ b'~' ∷ [])
    ∷ (codes "F10", 0x1b ∷ b'[' ∷ b'2' ∷ b'1' ∷ b'~' ∷ [])
    ∷ (codes "F11", 0x1b ∷ b'[' ∷ b'2' ∷ b'3' ∷ b'~' ∷ [])
    ∷ (codes "F12", 0x1b ∷ b'[' ∷ b'2' ∷ b'4' ∷ b'~' ∷ [])
    ∷ (codes "CTRL+A", 0x01 ∷ [])
    ∷ (codes "CTRL+B", 0x02 ∷ [])
    ∷ (codes "CTRL+C", 0x03 ∷ [])
    ∷ (codes "CTRL+D", 0x04 ∷ [])
    ∷ (codes "CTRL+E", 0x05 ∷ [])
    ∷ (codes "CTRL+F", 0x06 ∷ [])
    ∷ (codes "CTRL+G", 0x07 ∷ [])
    ∷ (codes "CTRL+H", 0x08 ∷ [])
    ∷ (codes "CTRL+I", 0x09 ∷ [])
    ∷ (codes "CTRL+J", 0x0a ∷ [])
    ∷ (codes "CTRL+K", 0x0b ∷ [])
    ∷ (codes "CTRL+L", 0x0c ∷ [])
    ∷ (codes "CTRL+M", 0x0d ∷ [])
    ∷ (codes "CTRL+N", 0x0e ∷ [])
    ∷ (codes "CTRL+O", 0x0f ∷ [])
    ∷ (codes "CTRL+P", 0x10 ∷ [])
    ∷ (codes "CTRL+Q", 0x11 ∷ [])
    ∷ (codes "CTRL+R", 0x12 ∷ [])
    ∷ (codes "CTRL+S", 0x13 ∷ [])
    ∷ (codes "CTRL+T", 0x14 ∷ [])
    ∷ (codes "CTRL+U", 0x15 ∷ [])
    ∷ (codes "CTRL+V", 0x16 ∷ [])
    ∷ (codes "CTRL+W", 0x17 ∷ [])
    ∷ (codes "CTRL+X", 0x18 ∷ [])
    ∷ (codes "CTRL+Y", 0x19 ∷ [])
    ∷ (codes "CTRL+Z", 0x1a ∷ [])
    ∷ (codes "PASTE_START", 0x1b ∷ b'[' ∷ b'2' ∷ b'0' ∷ b'0' ∷ b'~' ∷ [])
    ∷ (codes "PASTE_END", 0x1b ∷ b'[' ∷ b'2' ∷ b'0' ∷ b'1' ∷ b'~' ∷ [])
    ∷ []

unfoldable pub bracket_sequence : Text → Option (List ℕ)
bracket_sequence tag = Map.get tag table
