-- ===== src/Terminal/Cwd/Report.antt =====
-- A whole report in the terminal's output.
use native.Mathlib.Nat.{add-zero}
use rem_cmd.Prelude.{
  ℕ, suc, ◌+◌, ◌≤◌, ◌<◌, true, false, some, [], ◌∷◌, ◌++◌, ◌≡◌, ◌≢◌, refl, ap, ◌∙◌, arith, length,
  length-append, All, All-append, append_assoc, append-nil,
}
use rem_cmd.Prelude.Text.{codes, starts_with, free_of}
use rem_cmd.Prelude.Utf8.{Bytes}
use rem_cmd.Terminal.Cwd.{
  ground_state, osc, Osc7Parser, default_parser, max_osc_payload_bytes, step_in, advance_from,
  advance, finished_event, parse_osc7_path,
}
use rem_cmd.Terminal.Cwd.Path.{
  percent_encode, decode-percent_encode, percent_encode-IsVisible, decode-IsVisible, IsVisible,
  IsReportable, report_payload, parse-report_payload,
}

-- A byte that neither ends nor escapes in a payload.
abbrev pub IsPayloadByte : ℕ → Type 0
IsPayloadByte b = (b ≢ 0x07) × (b ≢ 0x9c) × (b ≢ 0x1b)

step_in-payload :
    (p : Osc7Parser) (offset b : ℕ)
    → p.state ≡ osc
    → IsPayloadByte b
    → length p.payload < max_osc_payload_bytes
    → step_in p.state p offset b ≡ (record p { payload = p.payload ++ b ∷ [] }, [])
unfolding step_in
step_in-payload p offset b s h k = ground arith

advance_from-payload :
    (offset : ℕ) (p : Osc7Parser) (bs rest : Bytes)
    → p.state ≡ osc
    → All IsPayloadByte bs
    → length p.payload + length bs ≤ max_osc_payload_bytes
    → advance_from offset p (bs ++ rest)
      ≡ advance_from (offset + length bs) (record p { payload = p.payload ++ bs }) rest
unfolding advance_from
advance_from-payload offset p [] rest s h k = rw (append-nil, add-zero)
advance_from-payload offset p (b ∷ bs) rest s h k =
    let q = record p { payload = p.payload ++ b ∷ [] } in
    rw (step_in-payload p offset b s h.0 (omega arith)) (
      advance_from-payload (suc offset) q bs rest s h.1
        (omega (arith, length-append p.payload (b ∷ [])))
      ∙ ap (λ bytes. advance_from (suc offset + length bs) (record p { payload = bytes }) rest)
          (append_assoc p.payload (b ∷ []) bs)
      ∙ ap (λ n. advance_from n (record p { payload = p.payload ++ b ∷ bs }) rest) (omega arith))

-- ESC ] in front of a payload, BEL behind it.
abbrev pub report : Bytes → Bytes
report payload = 0x1b ∷ b']' ∷ (payload ++ 0x07 ∷ [])

-- A parser at the start of a payload.
abbrev opened : Osc7Parser
opened = record { state = osc; payload = []; overflowed = false }

advance_from-open :
    (p : Osc7Parser) (rest : Bytes)
    → p.state ≡ ground_state
    → advance_from 0 p (0x1b ∷ b']' ∷ rest) ≡ advance_from 2 opened rest
unfolding advance_from
advance_from-open p rest s = rw s

advance_from-close :
    (offset : ℕ) (payload path : Bytes)
    → parse_osc7_path payload ≡ some path
    → advance_from offset (record opened { payload = payload }) (0x07 ∷ [])
      ≡ (default_parser, record { end_offset = offset + 1; path = path } ∷ [])
unfolding advance_from finished_event
advance_from-close offset payload path e = rw e

-- A report read by a parser between sequences: its only event is the one of the payload.
advance-report :
    (p : Osc7Parser) (payload path : Bytes)
    → p.state ≡ ground_state
    → All IsPayloadByte payload
    → length payload ≤ max_osc_payload_bytes
    → parse_osc7_path payload ≡ some path
    → advance p (report payload)
      ≡ (default_parser, record { end_offset = length payload + 3; path = path } ∷ [])
unfolding advance
advance-report p payload path s h k e =
    advance_from-open p (payload ++ 0x07 ∷ []) s
    ∙ advance_from-payload 2 opened payload (0x07 ∷ []) refl h (omega arith)
    ∙ advance_from-close (2 + length payload) payload path e
    ∙ ap (λ n. (default_parser, record { end_offset = n; path = path } ∷ [])) (omega arith)

pub visible-IsPayloadByte : (bs : Bytes) → All IsVisible bs → All IsPayloadByte bs
visible-IsPayloadByte [] h = tt
visible-IsPayloadByte (b ∷ bs) h =
    ((omega arith, omega arith, omega arith), visible-IsPayloadByte bs h.1)

percent_encode_absolute :
    (path : Bytes) → starts_with b'/' path ≡ true → starts_with b'/' (percent_encode path) ≡ true
unfolding percent_encode
percent_encode_absolute [] h = h
percent_encode_absolute (b ∷ path) h = ground arith

-- A shell that percent-encodes the path in an OSC 7 report is understood: for a parser between
-- sequences, a host name of visible ASCII without a slash, an absolute path of UTF-8 text without
-- control characters, and a payload of at most 4096 bytes. There is one event, with that path and
-- the offset behind the report, and the parser is as new.
pub advance_encoded_report :
    (p : Osc7Parser) (host path : Bytes)
    → p.state ≡ ground_state
    → All IsVisible host
    → free_of b'/' host ≡ true
    → IsReportable path
    → length (report_payload host (percent_encode path)) ≤ max_osc_payload_bytes
    → advance p (report (report_payload host (percent_encode path))) ≡ (
      default_parser,
      record { end_offset = length (report_payload host (percent_encode path)) + 3; path = path }
          ∷ [],
    )
advance_encoded_report p host path s hv f r k =
    let encoded = percent_encode path in
    let visible : All IsVisible (report_payload host encoded) =
      All-append IsVisible (codes "7;file://") (omega arith) (host ++ encoded)
        (All-append IsVisible host hv encoded (percent_encode-IsVisible path r.bytes)) in
    advance-report p (report_payload host encoded) path s
      (visible-IsPayloadByte (report_payload host encoded) visible) k
      (parse-report_payload host encoded path (report_payload host encoded)
        (decode-IsVisible (report_payload host encoded) visible) f
        (percent_encode_absolute path r.absolute) (decode-percent_encode path r.bytes) r)
