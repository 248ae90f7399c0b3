-- ===== src/Mgmt/Answers.antt =====
-- ui/app/mgmt.py: which lines a command returns, and what the retry repairs.
use openvpn_server.Base.{
  append_assoc, append-nil, ◌≡◌, ◌≢◌, ◌⊎◌, inl, inr, refl, sym, ap, true, false, ◌||◌, Option, none,
  some, List, [], ◌∷◌, ◌++◌, arith, Text, codes, text_eq, starts_with, Option-cases,
}
use openvpn_server.Mgmt.Command.{
  Management, is_notification, is_verdict, is_end, read_answer, finish, connect, try_once, retry,
  command,
}

-- The lines of an answer, in order, with asynchronous notifications between them.
pub data Woven : List Text → List Text → Type 0 where
  done : Woven [] []
  notified :
      {answer stream : List Text} {n : Text}
      → is_notification n ≡ true
      → Woven answer stream
      → Woven answer (n ∷ stream)
  answered :
      {answer stream : List Text} {l : Text}
      → (is_notification l || (is_end l || is_verdict l)) ≡ false
      → Woven answer stream
      → Woven (l ∷ answer) (l ∷ stream)

read_answer-Woven :
    {answer stream : List Text} (rest lines : List Text)
    → Woven answer stream
    → read_answer lines (stream ++ codes "END" ∷ rest) ≡ some (lines ++ answer, rest)
unfolding read_answer starts_with text_eq
read_answer-Woven rest lines done = ap (λ l. some (l, rest)) (sym (append-nil lines))
read_answer-Woven rest lines (notified n w) = rw n (read_answer-Woven rest lines w)
read_answer-Woven rest lines (answered {answer = a} {l = l} p w) =
    ground (arith, read_answer-Woven rest (lines ++ l ∷ []) w, append_assoc lines (l ∷ []) a)

read_answer-cut :
    {answer stream : List Text} (lines : List Text)
    → Woven answer stream
    → read_answer lines stream ≡ none
unfolding read_answer starts_with
read_answer-cut lines done = refl
read_answer-cut lines (notified n w) = rw n (read_answer-cut lines w)
read_answer-cut lines (answered {l = l} p w) = ground (arith, read_answer-cut (lines ++ l ∷ []) w)

-- A command returns the lines up to END, in order and without the notifications between them, where
-- no line of the answer is END or a SUCCESS or ERROR line. It does so on an open connection, and on
-- the next one that can be made where the open one ends in the midst of an answer.
pub command-Woven :
    {answer stream partial cut : List Text} (rest : List Text) (later : List (Option (List Text)))
    → Woven answer stream
    → Woven partial cut
    → let lines = stream ++ codes "END" ∷ rest in
      let after : Management = record { socket = some rest; connections = later } in
      (command (record { socket = some lines; connections = later }) ≡ (some answer, after))
      × (command (record { socket = some cut; connections = some lines ∷ later })
          ≡ (some answer, after))
unfolding command try_once retry finish connect
command-Woven rest later w c =
    (rw (read_answer-Woven rest [] w), rw (read_answer-cut [] c, read_answer-Woven rest [] w))

finish-closed :
    (m : Management) (r : Option (List Text × List Text))
    → ((finish m r).0 ≢ none) ⊎ ((finish m r).1.socket ≡ none)
unfolding finish
finish-closed m none = inr refl
finish-closed m (some (answer, rest)) = inl (λ e. ground arith)

connect-closed :
    (cs : List (Option (List Text))) → ((connect cs).0 ≢ none) ⊎ ((connect cs).1.socket ≡ none)
unfolding connect
connect-closed [] = inr refl
connect-closed (none ∷ later) = inr refl
connect-closed (some lines ∷ later) =
    finish-closed (record { socket = none; connections = later }) (read_answer [] lines)

try_once-closed : (m : Management) → ((try_once m).0 ≢ none) ⊎ ((try_once m).1.socket ≡ none)
unfolding try_once finish
try_once-closed m = elim (Option-cases m.socket) [
  | inl e ↦ rw e (connect-closed m.connections)
  | inr (lines, e) ↦ rw e (finish-closed m (read_answer [] lines))
]

retry-closed :
    (r : Option (List Text) × Management) → ((retry r).0 ≢ none) ⊎ ((retry r).1.socket ≡ none)
unfolding retry
retry-closed (some answer, m) = inl (λ e. ground arith)
retry-closed (none, m) = try_once-closed m

-- A command that raises ManagementError leaves the connection closed, so that the next one makes a
-- new connection.
command-closed : (m : Management) → ((command m).0 ≢ none) ⊎ ((command m).1.socket ≡ none)
unfolding command
command-closed m = retry-closed (try_once m)
