-- ===== src/Tui/Samples.antt =====
-- Input, selections and frames on small inputs.
use tttt.Base.{
  ℕ, ◌+◌, ◌-◌, ◌*◌, if◌then◌else◌, ◌≡◌, refl, false, ◌&&◌, ◌||◌, Option, none, some, [], ◌∷◌, ◌++◌,
  ◌==◌, length, take, arith,
}
use tttt.Base.Text.{Text, codes}
use tttt.Tui.Input
use tttt.Tui.Input.{
  InputParser, InputEvent, pass_through, default_config, process, process_raw_bytes,
}
use tttt.Tui.Input.Mouse.{decode, parse_sgr_mouse}
use tttt.Tui.Input.Mouse.Report.{params_text, parse_sgr_mouse_report}
use tttt.Tui.Input.Transducer.{flatten, read_bytes, process-read_bytes, process_raw-append}
use tttt.Tui.Input.Buffering.{process-cut_report}
use tttt.Tui.Selection.{Selection, contains, reads_before, contains_between}
use tttt.Tui.Protocol.{
  ClientMsg, detach, Json, encode_message, decode_message, to_be_bytes, decode-encode,
  decode-take_encode,
}

-- A report of Ctrl and the left button at column 12 and row 3.
parse_sgr_mouse_report_example :
    parse_sgr_mouse (0x1b ∷ b'[' ∷ b'<' ∷ (params_text 16 12 3 ++ b'M' ∷ codes "ls"))
    ≡ some (decode (b'M' == b'm') 16 (12 - 1) (3 - 1), 3 + length (params_text 16 12 3) + 1)
parse_sgr_mouse_report_example =
    parse_sgr_mouse_report 16 12 3 b'M' (codes "ls") (omega arith) (omega arith) (omega arith) refl

-- A clock whose readings are a second apart.
abbrev seconds : ℕ → ℕ
seconds k = k * 1_000_000_000

abbrev idle : InputParser
idle = record {
  config = default_config;
  prefix_armed = false;
  mouse_buf = [];
  ctrl_c_tracker = Input.no_presses;
  readings = 0;
}

-- The prefix key alone, and its command in the next read.
process-read_bytes_example :
    (flatten (process_raw_bytes seconds (b'a' ∷ 0x1c ∷ b'n' ∷ []) idle).0
      ≡ (read_bytes seconds (b'a' ∷ 0x1c ∷ b'n' ∷ []) idle).0)
    × ((process_raw_bytes seconds (b'a' ∷ 0x1c ∷ b'n' ∷ []) idle).1
        ≡ (read_bytes seconds (b'a' ∷ 0x1c ∷ b'n' ∷ []) idle).1)
process-read_bytes_example = process-read_bytes seconds (b'a' ∷ 0x1c ∷ b'n' ∷ []) idle

process_raw-append_example :
    let p' = (process_raw_bytes seconds (b'a' ∷ 0x1c ∷ []) idle).1 in
    (flatten (process_raw_bytes seconds ((b'a' ∷ 0x1c ∷ []) ++ codes "nls") idle).0
      ≡ flatten (process_raw_bytes seconds (b'a' ∷ 0x1c ∷ []) idle).0
        ++ flatten (process_raw_bytes seconds (codes "nls") p').0)
    × ((process_raw_bytes seconds ((b'a' ∷ 0x1c ∷ []) ++ codes "nls") idle).1
        ≡ (process_raw_bytes seconds (codes "nls") p').1)
process_raw-append_example = process_raw-append seconds (b'a' ∷ 0x1c ∷ []) (codes "nls") idle

process-cut_report_example :
    let p' = (process seconds (0x1b ∷ b'[' ∷ b'<' ∷ codes "0;1") idle).1 in
    ((process seconds (0x1b ∷ b'[' ∷ b'<' ∷ codes "0;1") idle).0 ≡ [])
    × (process seconds (codes "2;3M") p'
        ≡ process seconds ((0x1b ∷ b'[' ∷ b'<' ∷ codes "0;1") ++ codes "2;3M") idle)
process-cut_report_example =
    process-cut_report seconds (codes "0;1") (codes "2;3M") idle refl (refl, (refl, (refl, tt)))

-- From the end of the second row back to the first.
abbrev backwards : Selection
backwards = record { anchor = (1, 7); head = (0, 4) }

contains_between_example : contains 1 2 backwards ≡ (
    (reads_before backwards.anchor (1, 2) && reads_before (1, 2) backwards.head)
    || (reads_before backwards.head (1, 2) && reads_before (1, 2) backwards.anchor))
contains_between_example = contains_between 1 2 backwards

-- The one message "Detach".
abbrev read_detach : Text → Option ClientMsg
read_detach (c ∷ cs) = if c == b'"' then some detach else none
read_detach [] = none

abbrev detach_json : Json ClientMsg
detach_json = record { to_vec = λ msg. codes "\"Detach\""; from_slice = read_detach }

decode-encode_example :
    decode_message detach_json (encode_message detach_json detach ++ codes "x")
    ≡ some (detach, length (encode_message detach_json detach))
decode-encode_example = decode-encode detach_json detach (codes "x") refl (omega arith)

decode-take_encode_example :
    decode_message detach_json (take 5 (encode_message detach_json detach)) ≡ none
decode-take_encode_example =
    decode-take_encode detach_json detach 5 (omega arith)
      (unfold encode_message to_be_bytes in omega arith)
