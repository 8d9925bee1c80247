-- ===== src/Terminal/Cwd/Swallowed.antt =====
-- What a byte 0x9d in ordinary text does to the reports behind it.
use rem_cmd.Prelude.{
  ℕ, suc, ◌+◌, false, none, [], ◌∷◌, ◌++◌, ◌≡◌, refl, ◌∙◌, arith, All, is_empty, is_none,
  append-nil, Bool-cases, inl, inr,
}
use rem_cmd.Prelude.Text.{starts_with}
use rem_cmd.Prelude.Utf8.{Bytes, decode}
use rem_cmd.Terminal.Cwd.{
  osc, osc_escape, Osc7Parser, default_parser, push_payload, step_in, advance_from, advance,
  finished_event, parse_osc7_path, start_osc,
}
use rem_cmd.Terminal.Cwd.Path.{IsVisible, report_payload}
use rem_cmd.Terminal.Cwd.Report.{IsPayloadByte, report, visible-IsPayloadByte}

-- Inside a payload that cannot be a report: it has begun, and not with the digit 7.
record IsHidden (p : Osc7Parser) : Type 0 where
  state : p.state ≡ osc
  begun : is_empty p.payload ≡ false
  other : starts_with b'7' p.payload ≡ false

push_back-other :
    (xs : Bytes) (b : ℕ)
    → is_empty xs ≡ false
    → starts_with b'7' xs ≡ false
    → (is_empty (xs ++ b ∷ []) ≡ false) × (starts_with b'7' (xs ++ b ∷ []) ≡ false)
push_back-other [] b e h = (refl, cc)
push_back-other (x ∷ xs) b e h = (refl, h)

push_payload-IsHidden : (p : Osc7Parser) (b : ℕ) → IsHidden p → IsHidden (push_payload p b)
unfolding push_payload
push_payload-IsHidden p b h =
    ground (arith, h.state, h.begun, h.other, push_back-other p.payload b h.begun h.other)

not_a_report :
    (payload : Bytes)
    → is_empty payload ≡ false
    → starts_with b'7' payload ≡ false
    → parse_osc7_path payload ≡ none
unfolding parse_osc7_path
not_a_report [] e h = cc
not_a_report (b ∷ bs) e h = elim (Bool-cases (is_none (decode (b ∷ bs)))) [
  | inl broken ↦ rw broken
  | inr fine ↦ rw fine (ground arith)
]

finished_event-IsHidden : (p : Osc7Parser) (offset : ℕ) → IsHidden p → finished_event p offset ≡ []
unfolding finished_event
finished_event-IsHidden p offset h = ground (arith, not_a_report p.payload h.begun h.other)

step_in-IsHidden :
    (p : Osc7Parser) (offset b : ℕ)
    → IsHidden p
    → IsPayloadByte b
    → step_in p.state p offset b ≡ (push_payload p b, [])
unfolding step_in
step_in-IsHidden p offset b h k = rw (h.state) (ground arith)

step_in-close :
    (p : Osc7Parser) (offset : ℕ)
    → p.state ≡ osc
    → (step_in p.state p offset 0x07).1 ≡ finished_event p (offset + 1)
unfolding step_in
step_in-close p offset s = ground arith

close_hidden :
    (offset : ℕ) (p : Osc7Parser) (bs : Bytes)
    → IsHidden p
    → All IsPayloadByte bs
    → (advance_from offset p (bs ++ 0x07 ∷ [])).1 ≡ []
unfolding advance_from
close_hidden offset p [] h k =
    rw append-nil (step_in-close p offset h.state ∙ finished_event-IsHidden p (offset + 1) h)
close_hidden offset p (b ∷ bs) h k =
    rw (step_in-IsHidden p offset b h k.0)
      (close_hidden (suc offset) (push_payload p b) bs (push_payload-IsHidden p b h) k.1)

-- The parser when ESC and the bracket have gone into the payload.
abbrev swallowed : Osc7Parser → Osc7Parser
swallowed p = record (push_payload (push_payload p 0x1b) b']') { state = osc }

step_in-escape :
    (p : Osc7Parser) (offset : ℕ)
    → p.state ≡ osc
    → step_in p.state p offset 0x1b ≡ (record p { state = osc_escape }, [])
unfolding step_in
step_in-escape p offset s = rw s

step_in-bracket :
    (p : Osc7Parser) (offset : ℕ)
    → p.state ≡ osc
    → step_in osc_escape (record p { state = osc_escape }) offset b']' ≡ (swallowed p, [])
unfolding step_in push_payload
step_in-bracket p offset s = ground arith

advance_from-step :
    (offset : ℕ) (p q : Osc7Parser) (b : ℕ) (bs : Bytes)
    → step_in p.state p offset b ≡ (q, [])
    → (advance_from offset p (b ∷ bs)).1 ≡ (advance_from (suc offset) q bs).1
unfolding advance_from
advance_from-step offset p q b bs e = rw e

report_hidden :
    (offset : ℕ) (p : Osc7Parser) (payload : Bytes)
    → p.state ≡ osc
    → IsHidden (swallowed p)
    → All IsPayloadByte payload
    → (advance_from offset p (report payload)).1 ≡ []
report_hidden offset p payload s h k =
    let p' = record p { state = osc_escape } in
    advance_from-step offset p p' 0x1b (b']' ∷ (payload ++ 0x07 ∷ [])) (step_in-escape p offset s)
    ∙ advance_from-step (suc offset) p' (swallowed p) b']' (payload ++ 0x07 ∷ [])
        (step_in-bracket p (suc offset) s)
    ∙ close_hidden (suc (suc offset)) (swallowed p) payload h k

swallowed-IsHidden : (p : Osc7Parser) → IsHidden p → IsHidden (swallowed p)
swallowed-IsHidden p h =
    let q = push_payload-IsHidden (push_payload p 0x1b) b']' (push_payload-IsHidden p 0x1b h) in
    record { state = refl; begun = q.begun; other = q.other }

text_hidden :
    (offset : ℕ) (p : Osc7Parser) (text payload : Bytes)
    → IsHidden p
    → All IsPayloadByte text
    → All IsPayloadByte payload
    → (advance_from offset p (text ++ report payload)).1 ≡ []
unfolding advance_from
text_hidden offset p [] payload h t k =
    report_hidden offset p payload h.state (swallowed-IsHidden p h) k
text_hidden offset p (b ∷ text) payload h t k =
    rw (step_in-IsHidden p offset b h t.0)
      (text_hidden (suc offset) (push_payload p b) text payload (push_payload-IsHidden p b h) t.1 k)

step_in-open :
    (offset b : ℕ)
    → IsPayloadByte b
    → step_in osc (start_osc default_parser) offset b
      ≡ (record (start_osc default_parser) { payload = b ∷ [] }, [])
unfolding step_in
step_in-open offset b h = ground arith

start_hidden :
    (offset : ℕ) (text payload : Bytes)
    → starts_with b'7' text ≡ false
    → All IsPayloadByte text
    → All IsPayloadByte payload
    → (advance_from offset (start_osc default_parser) (text ++ report payload)).1 ≡ []
unfolding advance_from push_payload
start_hidden offset [] payload f t k =
    report_hidden offset (start_osc default_parser) payload refl
      (record { state = refl; begun = refl; other = refl }) k
start_hidden offset (b ∷ text) payload f t k = ground (
  arith,
  text_hidden (suc offset) (record (start_osc default_parser) { payload = b ∷ [] }) text payload
      (record { state = refl; begun = refl; other = f }) t.1 k,
  step_in-open offset b t.0,
)

-- After the bytes of U+201D in UTF-8, the last of which is 0x9d, a new parser gives no event for
-- the next report, whose bytes neither end nor escape a payload, if visible text that does not
-- begin with the digit 7 stands between.
pub quote_hides_report :
    (text host encoded : Bytes)
    → All IsVisible text
    → starts_with b'7' text ≡ false
    → All IsPayloadByte (report_payload host encoded)
    → (advance default_parser
        (0xe2 ∷ 0x80 ∷ 0x9d ∷ (text ++ report (report_payload host encoded)))).1
      ≡ []
unfolding advance
quote_hides_report text host encoded hv f h =
    start_hidden 3 text (report_payload host encoded) f (visible-IsPayloadByte text hv) h
