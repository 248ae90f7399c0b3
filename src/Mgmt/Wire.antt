-- ===== src/Mgmt/Wire.antt =====
-- ui/app/mgmt.py: _readline and _connect. A socket is what the next calls of recv return; an empty
-- reception is the end of the connection, and a timeout is an error outside of the greeting.
use openvpn_server.Base.{
  ℕ, zero, suc, ◌-◌, Bool, ◌&&◌, ◌||◌, Option, none, some, List, [], ◌∷◌, ◌++◌, Text, codes,
  nonempty, is_some, starts_with, contains_code, rstrip, ◌==◌, if◌then◌else◌, drop, length,
}
use openvpn_server.Mgmt.Command.{is_notification, is_verdict, is_end, is_first}

pub data Reception : Type 0 where
  received : Text → Reception
  timed_out : Reception

-- The buffer and the receptions to come.
pub record Wire : Type 0 where
  pub buffer : Text
  pub receptions : List Reception

abbrev pub put_front : ℕ → Option (Text × Text) → Option (Text × Text)
put_front c none = none
put_front c (some (line, rest)) = some (c ∷ line, rest)

-- `buffer.split(b"\n", 1)`, if there is a newline.
unfoldable pub first_line : Text → Option (Text × Text)
first_line [] = none
first_line (c ∷ s) = if c == 10 then some ([], s) else put_front c (first_line s)

-- What the loop of `command` does with a line, or where the connection ends.
unfoldable pub on_line :
    (List Text → Wire → Option (List Text × Wire))
    → List Text
    → Option (Text × Wire)
    → Option (List Text × Wire)
on_line more lines none = none
on_line more lines (some (line, w)) =
    if is_notification line
    then more lines w
    else if is_end line
    then some (lines, w)
    else if is_verdict line && is_first lines
    then some (lines ++ line ∷ [], w)
    else more (lines ++ line ∷ []) w

-- What follows the first occurrence of a text.
unfoldable pub after_text : Text → Text → Option Text
after_text p [] = if nonempty p then none else some []
after_text p (c ∷ s) =
    if starts_with (c ∷ s) p then some (drop (length p) (c ∷ s)) else after_text p s

abbrev pub is_greeting : Text → Bool
is_greeting buffer =
    contains_code buffer 10 || is_some (after_text (codes "ENTER PASSWORD:") buffer)

-- The loop that waits for the greeting, with the receptions left before the deadline; `none` where the
-- connection ends.
unfoldable pub greet : ℕ → Text → List Reception → Option (Text × List Reception)
greet before buffer [] = if is_greeting buffer || before == 0 then some (buffer, []) else none
greet before buffer (timed_out ∷ rs) =
    some (buffer, if is_greeting buffer || before == 0 then timed_out ∷ rs else rs)
greet before buffer (received s ∷ rs) =
    let more = greet (before - 1) (buffer ++ s) rs in
    if is_greeting buffer || before == 0
    then some (buffer, received s ∷ rs)
    else if nonempty s
    then more
    else none

module _ (decode : Text → Text) where
  abbrev pub line_of : Text → Text
  line_of raw = rstrip (λ c. c == 13) (decode raw)

  -- `none` is an exception.
  unfoldable pub next_line : Option (Text × Text) → List Reception → Text → Option (Text × Wire)
  next_line (some (raw, rest)) rs buffer =
      some (line_of raw, record { buffer = rest; receptions = rs })
  next_line none [] buffer = none
  next_line none (timed_out ∷ rs) buffer = none
  next_line none (received [] ∷ rs) buffer = none
  next_line none (received (c ∷ s) ∷ rs) buffer =
      next_line (first_line (buffer ++ c ∷ s)) rs (buffer ++ c ∷ s)

  -- `_readline`
  unfoldable pub readline : Wire → Option (Text × Wire)
  readline w = next_line (first_line w.buffer) w.receptions w.buffer

  -- The loop of `command` over the lines of an answer, on fuel.
  unfoldable pub wire_answer : ℕ → List Text → Wire → Option (List Text × Wire)
  wire_answer zero lines w = none
  wire_answer (suc fuel) lines w = on_line (wire_answer fuel) lines (readline w)

  -- The first line that is no notification, on fuel.
  unfoldable pub skip_notes : ℕ → Option (Text × Wire) → Option (Text × Wire)
  skip_notes zero o = none
  skip_notes (suc fuel) none = none
  skip_notes (suc fuel) (some (line, w)) =
      let later = skip_notes fuel (readline w) in
      if is_notification line then later else some (line, w)

  abbrev pub password_accepted : Option (Text × Wire) → Option Wire
  password_accepted none = none
  password_accepted (some (line, w)) = if starts_with line (codes "SUCCESS:") then some w else none

  -- The connection, if the login succeeds, and what was sent.
  unfoldable pub send_password : ℕ → Option Text → Wire → Option Wire × List Text
  send_password fuel none w = (none, [])
  send_password fuel (some []) w = (none, [])
  send_password fuel (some (c ∷ p)) w =
      (password_accepted (skip_notes fuel (readline w)), ((c ∷ p) ++ 10 ∷ []) ∷ [])

  unfoldable pub after_greeting :
      ℕ → Option Text → Option (Text × List Reception) → Option Wire × List Text
  after_greeting fuel password none = (none, [])
  after_greeting fuel password (some (buffer, rs)) =
      elim (after_text (codes "ENTER PASSWORD:") buffer) [
        | none ↦ (some (record { buffer = buffer; receptions = rs }), [])
        | some rest ↦ send_password fuel password (record { buffer = rest; receptions = rs })
      ]

  -- `_connect` on a new socket; `before` is how often it receives before the deadline.
  unfoldable pub log_in : ℕ → ℕ → Option Text → List Reception → Option Wire × List Text
  log_in fuel before password rs = after_greeting fuel password (greet before [] rs)
