-- ===== src/Mgmt/Framing.antt =====
-- ui/app/mgmt.py: the lines of an answer do not depend on how the bytes come in.
use openvpn_server.Base.{
  append_assoc, append-nil, ℕ, zero, suc, ◌≡◌, ◌<◌, refl, sym, ap, subst, arith, ◌&&◌, Bool-cases,
  Option-cases, inl, inr, Option, none, some, some_eq, List, [], ◌∷◌, ◌++◌, Text, starts_with, ◌==◌,
  if◌then◌else◌, length,
}
use openvpn_server.Mgmt.Command.{is_notification, is_verdict, is_end, is_first, read_answer}
use openvpn_server.Mgmt.Wire.{
  Reception, received, timed_out, Wire, put_front, first_line, on_line, line_of, next_line,
  readline, wire_answer,
}

-- Every call of recv returns bytes, until the list ends with the connection.
abbrev pub IsFlow : List Reception → Type 0
IsFlow [] = Unit
IsFlow (received [] ∷ rs) = ⊥
IsFlow (received (c ∷ s) ∷ rs) = IsFlow rs
IsFlow (timed_out ∷ rs) = ⊥

abbrev pub flow : List Reception → Text
flow [] = []
flow (received s ∷ rs) = s ++ flow rs
flow (timed_out ∷ rs) = flow rs

-- All bytes that are still to be read.
abbrev pub stream : Wire → Text
stream w = w.buffer ++ flow w.receptions

module _ (decode : Text → Text) where
  -- The whole lines of a stream, after the start of the first.
  unfoldable pub stream_lines : Text → Text → List Text
  stream_lines start [] = []
  stream_lines start (c ∷ s) =
      if c == 10 then line_of decode start ∷ stream_lines [] s else stream_lines (start ++ c ∷ []) s

put_front_sound :
    (c : ℕ) (o : Option (Text × Text)) (line rest : Text)
    → put_front c o ≡ some (line, rest)
    → (l : Text) × (o ≡ some (l, rest)) × (line ≡ c ∷ l)
put_front_sound c none line rest h = absurd (ground arith)
put_front_sound c (some (l, r)) line rest h = (
  l,
  ap (λ (t : Text). some (l, t)) (ap (λ (p : Text × Text). p.1) (some_eq h)),
  sym (ap (λ (p : Text × Text). p.0) (some_eq h)),
)

first_line-append :
    (s t line rest : Text)
    → first_line s ≡ some (line, rest)
    → first_line (s ++ t) ≡ some (line, rest ++ t)
unfolding first_line
first_line-append [] t line rest h = absurd (ground arith)
first_line-append (c ∷ s) t line rest h = elim (Bool-cases (c == 10)) [
  | inl newline ↦
      rw newline (ap (λ (p : Text × Text). some (p.0, p.1 ++ t)) (some_eq (rw newline at h)))
  | inr other ↦
      let (l, e, is) = put_front_sound c (first_line s) line rest (rw other at h) in
      rw (other, first_line-append s t l rest e, is) refl
]

first_line-length : (s line rest : Text) → first_line s ≡ some (line, rest) → length rest < length s
unfolding first_line
first_line-length [] line rest h = absurd (ground arith)
first_line-length (c ∷ s) line rest h = elim (Bool-cases (c == 10)) [
  | inl newline ↦ omega (arith, ap (λ (p : Text × Text). length p.1) (some_eq (rw newline at h)))
  | inr other ↦
      let (l, e, is) = put_front_sound c (first_line s) line rest (rw other at h) in
      omega (arith, first_line-length s l rest e)
]

module _ (decode : Text → Text) where
  lines_none : (start s : Text) → first_line s ≡ none → stream_lines decode start s ≡ []
  unfolding stream_lines first_line
  lines_none start [] h = refl
  lines_none start (c ∷ s) h = elim (Bool-cases (c == 10)) [
    | inl newline ↦ absurd (ground arith)
    | inr other ↦ elim (Option-cases (first_line s)) [
      | inl e ↦ rw other (lines_none (start ++ c ∷ []) s e)
      | inr (p, e) ↦ absurd (ground arith)
    ]
  ]

  lines_first :
      (start s line rest : Text)
      → first_line s ≡ some (line, rest)
      → stream_lines decode start s ≡ line_of decode (start ++ line) ∷ stream_lines decode [] rest
  unfolding stream_lines first_line
  lines_first start [] line rest h = absurd (ground arith)
  lines_first start (c ∷ s) line rest h = elim (Bool-cases (c == 10)) [
    | inl newline ↦
        let split = some_eq (rw newline at h) in
        rw
          (
            newline,
            ← ap (λ (p : Text × Text). p.0) split,
            ← ap (λ (p : Text × Text). p.1) split,
            append-nil start,
          )
          refl
    | inr other ↦
        let (l, e, is) = put_front_sound c (first_line s) line rest (rw other at h) in
        rw (other, lines_first (start ++ c ∷ []) s l rest e, is, append_assoc start (c ∷ []) l) refl
  ]

  -- A reading gives the first line of the stream and leaves the rest of it.
  abbrev Reads : Option (Text × Text) → Option (Text × Wire) → Type 0
  Reads none r = r ≡ none
  Reads (some (line, rest)) r =
      (w : Wire) × (r ≡ some (line_of decode line, w)) × (stream w ≡ rest) × IsFlow w.receptions

  next_line-Reads :
      (o : Option (Text × Text)) (rs : List Reception) (buffer : Text)
      → first_line buffer ≡ o
      → IsFlow rs
      → Reads (first_line (buffer ++ flow rs)) (next_line decode o rs buffer)
  unfolding next_line
  next_line-Reads (some (line, rest)) rs buffer e f =
      subst (λ o. Reads o (next_line decode (some (line, rest)) rs buffer))
        (sym (first_line-append buffer (flow rs) line rest e))
        (record { buffer = rest; receptions = rs }, refl, refl, f)
  next_line-Reads none [] buffer e f = rw (append-nil buffer, e) refl
  next_line-Reads none (timed_out ∷ rs) buffer e f = elim f [ ]
  next_line-Reads none (received [] ∷ rs) buffer e f = elim f [ ]
  next_line-Reads none (received (c ∷ s) ∷ rs) buffer e f =
      subst (λ t. Reads (first_line t) (next_line decode none (received (c ∷ s) ∷ rs) buffer))
        (append_assoc buffer (c ∷ s) (flow rs))
        (next_line-Reads (first_line (buffer ++ c ∷ s)) rs (buffer ++ c ∷ s) refl f)

  -- What the loop gives, as the lines of the stream give it.
  abbrev pub Agrees : Option (List Text × List Text) → Option (List Text × Wire) → Type 0
  Agrees none r = r ≡ none
  Agrees (some (answer, rest)) r =
      (w : Wire) × (r ≡ some (answer, w))
      × (stream_lines decode [] (stream w) ≡ rest)
      × IsFlow w.receptions

  abbrev pub AgreesAfter : ℕ → List Text → Wire → Type 0
  AgreesAfter fuel lines w =
      Agrees (read_answer lines (stream_lines decode [] (stream w)))
        (wire_answer decode fuel lines w)

  on_line-Agrees :
      (fuel : ℕ) (lines : List Text) (line : Text) (w : Wire) (rest : List Text)
      → IsFlow w.receptions
      → stream_lines decode [] (stream w) ≡ rest
      → ((ls : List Text) → AgreesAfter fuel ls w)
      → Agrees
          (read_answer lines (line ∷ rest))
          (on_line (wire_answer decode fuel) lines (some (line, w)))
  unfolding on_line read_answer starts_with stream_lines
  on_line-Agrees fuel lines line w rest f e more = elim (Bool-cases (is_notification line)) [
    | inl note ↦ rw (note, ← e) (more lines)
    | inr answer ↦ elim (Bool-cases (is_end line)) [
      | inl end ↦ rw (answer, end) (w, refl, e, f)
      | inr on ↦ elim (Bool-cases (is_verdict line && is_first lines)) [
        | inl verdict ↦ rw (answer, on, verdict) (w, refl, e, f)
        | inr other ↦ rw (answer, on, other, ← e) (more (lines ++ line ∷ []))
      ]
    ]
  ]

  -- However the bytes of a connection come in, the loop of `command` over them returns the answer that
  -- the lines of the stream give, and leaves their rest; fuel beyond the bytes is enough.
  pub wire_answer-lines :
      (fuel : ℕ) (lines : List Text) (w : Wire)
      → IsFlow w.receptions
      → length (stream w) < fuel
      → AgreesAfter fuel lines w
  unfolding wire_answer readline read_answer on_line
  wire_answer-lines zero lines w f enough = absurd (omega arith)
  wire_answer-lines (suc fuel) lines w f enough =
      let read = next_line-Reads (first_line w.buffer) w.receptions w.buffer refl f in
      elim (Option-cases (first_line (stream w))) [
        | inl e ↦ rw (lines_none [] (stream w) e, rw e at read) refl
        | inr ((line, rest), e) ↦
            let (w', r, is, f') = rw e at read in
            rw (lines_first [] (stream w) line rest e, r)
              (on_line-Agrees fuel lines (line_of decode line) w' _ f'
                (ap (stream_lines decode []) is)
                (λ ls. wire_answer-lines fuel ls w' f' (
                  omega (
                    arith,
                    first_line-length (stream w) line rest e,
                    ap (λ (t : Text). length t) is,
                  ))))
      ]
