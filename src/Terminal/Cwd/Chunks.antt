-- ===== src/Terminal/Cwd/Chunks.antt =====
-- The output comes in chunks of any size: the parser's state between them, and its payload.
use native.Mathlib.Nat.{add-zero}
use rem_cmd.Prelude.{
  ℕ, suc, ◌+◌, ◌≤◌, [], ◌∷◌, ◌++◌, ◌≡◌, refl, arith, length, length-append, map, map-append,
  append_assoc,
}
use rem_cmd.Prelude.Utf8.{Bytes}
use rem_cmd.Terminal.Cwd.{
  ParserState, ground_state, escape, osc, osc_escape, Osc7Parser, Osc7Event, max_osc_payload_bytes,
  push_payload, step_in, advance_from, advance, finished_event,
}

-- An event of a later chunk, with its offset counted from the start of the earlier one.
abbrev pub shift : ℕ → Osc7Event → Osc7Event
shift n e = record e { end_offset = n + e.end_offset }

step_in-shift :
    (s : ParserState) (p : Osc7Parser) (n offset byte : ℕ)
    → step_in s p (n + offset) byte
      ≡ ((step_in s p offset byte).0, map (shift n) (step_in s p offset byte).1)
unfolding step_in finished_event
step_in-shift ground_state p n offset byte = ground arith
step_in-shift _ p n offset byte = ground arith

advance_from-shift :
    (n offset : ℕ) (p : Osc7Parser) (bytes : Bytes)
    → advance_from (n + offset) p bytes
      ≡ ((advance_from offset p bytes).0, map (shift n) (advance_from offset p bytes).1)
unfolding advance_from
advance_from-shift n offset p [] = refl
advance_from-shift n offset p (b ∷ bytes) =
    let q = (step_in p.state p offset b).0 in
    ground (
      arith,
      step_in-shift p.state p n offset b,
      advance_from-shift n (suc offset) q bytes,
      map-append (shift n) (step_in p.state p offset b).1 (advance_from (suc offset) q bytes).1,
    )

advance_from-append :
    (offset : ℕ) (p : Osc7Parser) (xs ys : Bytes)
    → advance_from offset p (xs ++ ys) ≡ (
      (advance_from (offset + length xs) (advance_from offset p xs).0 ys).0,
      (advance_from offset p xs).1
          ++ (advance_from (offset + length xs) (advance_from offset p xs).0 ys).1,
    )
unfolding advance_from
advance_from-append offset p [] ys = rw add-zero
advance_from-append offset p (x ∷ xs) ys =
    let q = (step_in p.state p offset x).0 in
    ground (
      arith,
      advance_from-append (suc offset) q xs ys,
      append_assoc (step_in p.state p offset x).1 (advance_from (suc offset) q xs).1
          (advance_from (suc offset + length xs) (advance_from (suc offset) q xs).0 ys).1,
    )

-- Cutting the output into chunks changes nothing but where offsets are counted from: the parser ends
-- in the same state, and the events are those of the first chunk followed by those of the second,
-- whose offsets grow by the length of the first.
pub advance-append :
    (p : Osc7Parser) (xs ys : Bytes)
    → let first = advance p xs in
      let second = advance first.0 ys in
      advance p (xs ++ ys) ≡ (second.0, first.1 ++ map (shift (length xs)) second.1)
unfolding advance
advance-append p xs ys =
    let q = (advance_from 0 p xs).0 in
    ground (arith, advance_from-append 0 p xs ys, advance_from-shift (length xs) 0 q ys)

-- The payload never grows beyond its bound.
abbrev pub IsBounded : Osc7Parser → Type 0
IsBounded p = length p.payload ≤ max_osc_payload_bytes

push_payload-IsBounded : (p : Osc7Parser) (b : ℕ) → IsBounded p → IsBounded (push_payload p b)
unfolding push_payload
push_payload-IsBounded p b h = ground (arith, length-append p.payload (b ∷ []))

step_in-IsBounded :
    (s : ParserState) (p : Osc7Parser) (offset b : ℕ)
    → IsBounded p
    → IsBounded (step_in s p offset b).0
unfolding step_in
step_in-IsBounded ground_state p offset b h = ground arith
step_in-IsBounded escape p offset b h = ground arith
step_in-IsBounded osc p offset b h = ground (arith, push_payload-IsBounded p b h)
step_in-IsBounded osc_escape p offset b h =
    ground (arith, push_payload-IsBounded (push_payload p 0x1b) b (push_payload-IsBounded p 0x1b h))

advance_from-IsBounded :
    (offset : ℕ) (p : Osc7Parser) (bytes : Bytes)
    → IsBounded p
    → IsBounded (advance_from offset p bytes).0
unfolding advance_from
advance_from-IsBounded offset p [] h = h
advance_from-IsBounded offset p (b ∷ bytes) h =
    advance_from-IsBounded (suc offset) (step_in p.state p offset b).0 bytes
      (step_in-IsBounded p.state p offset b h)

-- No output, however long or malformed, makes a bounded payload longer than 4096 bytes.
pub advance-IsBounded :
    (p : Osc7Parser) (bytes : Bytes) → IsBounded p → IsBounded (advance p bytes).0
unfolding advance
advance-IsBounded p bytes h = advance_from-IsBounded 0 p bytes h
