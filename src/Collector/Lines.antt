-- ===== src/Collector/Lines.antt =====
-- ui/app/collector.py: read_logs takes each line of a log once.
use openvpn_server.Base.{
  append_assoc, append-nil, ℕ, zero, suc, ◌≡◌, ◌⊎◌, inl, inr, refl, sym, ap, ◌∙◌, arith, true,
  Bool-cases, List, [], ◌∷◌, ◌++◌, Text, nonempty, length, length-append, take, drop, ◌==◌, ==_iff,
}
use openvpn_server.Collector.Position.{
  position, whole, next_mark, read_file, LogFile, Mark, IsTold, AreTold, LogEvent, appends,
  truncates, replaced, reads, Reader, after_read, on_event, on_events, Queue, queued, queued_all,
}

drop-append : (xs ys : Text) → drop (length xs) (xs ++ ys) ≡ ys
drop-append [] ys = refl
drop-append (x ∷ xs) ys = drop-append xs ys

whole-take : (n : ℕ) (s : Text) → whole (take n s) ++ drop (length (whole (take n s))) s ≡ s
unfolding whole
whole-take zero s = refl
whole-take (suc n) [] = refl
whole-take (suc n) (c ∷ s) = elim (Bool-cases (nonempty (whole (take n s)))) [
  | inl some_left ↦ rw some_left (ap (λ l. c ∷ l) (whole-take n s))
  | inr none_left ↦ elim (Bool-cases (c == 10)) [
    | inl line_end ↦ rw (none_left, line_end) refl
    | inr other ↦ rw (none_left, other) refl
  ]
]

-- The kept position is that of the queue, or of a file that was begun anew since.
abbrev Matches : Reader → Queue → Type 0
Matches r q =
    (r.handed ≡ q.taken)
    × (q.taken ++ q.waiting ≡ r.file.bytes)
    × (((r.mark.inode ≡ r.file.inode) × (r.mark.offset ≡ length q.taken))
        ⊎ ((r.renewed ≡ true) × (q.taken ≡ [])))

position-IsTold : (f : LogFile) (mark : Mark) → IsTold f mark → position f mark ≡ 0
position-IsTold f mark told = ground (arith, ==_iff mark.inode f.inode)

position-Matches :
    (r : Reader) (q : Queue)
    → Matches r q
    → (r.renewed ≡ true → IsTold r.file r.mark)
    → position r.file r.mark ≡ length q.taken
position-Matches r q (handed, bytes, inl (same, at)) told =
    let long = ap (λ (t : Text). length t) bytes in
    ground (arith, ==_iff r.mark.inode r.file.inode, length-append q.taken q.waiting)
position-Matches r q (handed, bytes, inr (anew, none_taken)) told =
    position-IsTold r.file r.mark (told anew) ∙ ap (λ (t : Text). length t) (sym none_taken)

moved : Text → Queue → Queue
moved chunk q = record { taken = q.taken ++ chunk; waiting = drop (length chunk) q.waiting }

next_mark-Matches :
    (r : Reader) (q : Queue) (chunk : Text)
    → Matches r q
    → chunk ++ drop (length chunk) q.waiting ≡ q.waiting
    → Matches (after_read r (next_mark r.file r.mark (length q.taken) chunk)) (moved chunk q)
unfolding moved
next_mark-Matches r q [] (handed, bytes, kept) split =
    let nil = append-nil q.taken in
    (handed ∙ sym nil, ap (λ t. t ++ q.waiting) nil ∙ bytes, rw nil kept)
next_mark-Matches r q (c ∷ chunk) (handed, bytes, kept) split = (
  ap (λ t. t ++ c ∷ chunk) handed,
  append_assoc q.taken (c ∷ chunk) (drop (length (c ∷ chunk)) q.waiting)
      ∙ (ap (λ t. q.taken ++ t) split ∙ bytes),
  inl (refl, sym (length-append q.taken (c ∷ chunk))),
)

read_file-Matches :
    (max_bytes : ℕ) (r : Reader) (q : Queue)
    → Matches r q
    → (r.renewed ≡ true → IsTold r.file r.mark)
    → Matches (on_event max_bytes reads r) (queued max_bytes reads q)
unfolding on_event queued read_file moved
read_file-Matches max_bytes r q (handed, bytes, kept) told =
    let pos = position-Matches r q (handed, bytes, kept) told in
    let left : drop (length q.taken) r.file.bytes ≡ q.waiting =
      ap (drop (length q.taken)) (sym bytes) ∙ drop-append q.taken q.waiting in
    let chunk = whole (take max_bytes q.waiting) in
    rw (pos, left)
      (next_mark-Matches r q chunk (handed, bytes, kept) (whole-take max_bytes q.waiting))

on_events-Matches :
    (max_bytes : ℕ) (es : List LogEvent) (r : Reader) (q : Queue)
    → Matches r q
    → AreTold max_bytes es r
    → Matches (on_events max_bytes es r) (queued_all max_bytes es q)
unfolding on_events queued_all on_event queued
on_events-Matches max_bytes [] r q m told = m
on_events-Matches max_bytes (appends s ∷ es) r q (handed, bytes, kept) told =
    on_events-Matches max_bytes es _ _
      (handed, sym (append_assoc q.taken q.waiting s) ∙ ap (λ t. t ++ s) bytes, kept) told
on_events-Matches max_bytes (truncates ∷ es) r q m told =
    on_events-Matches max_bytes es _ _ (refl, refl, inr (refl, refl)) told
on_events-Matches max_bytes (replaced inode s ∷ es) r q m told =
    on_events-Matches max_bytes es _ _ (refl, refl, inr (refl, refl)) told
on_events-Matches max_bytes (reads ∷ es) r q m (now, later) =
    on_events-Matches max_bytes es _ _ (read_file-Matches max_bytes r q m now) later

-- A log of which nothing was read yet.
abbrev pub new_reader : ℕ → Text → Reader
new_reader inode bytes = record {
  file = record { inode = inode; bytes = bytes };
  mark = record { inode = 0; offset = 0 };
  handed = [];
  renewed = true;
}

-- Whatever is appended to a log, and however often it is truncated, replaced by another file or read,
-- the collector hands over what the queue of whole lines does: what it took of the log since it was
-- last begun anew and what waits are together the log, so that it takes each byte once and in order.
-- This asks that a log that was begun anew since its position was kept has, when it is next read,
-- another inode or fewer bytes than the position.
pub on_events-queue :
    (max_bytes : ℕ) (es : List LogEvent) (inode : ℕ) (bytes : Text)
    → AreTold max_bytes es (new_reader inode bytes)
    → let r = on_events max_bytes es (new_reader inode bytes) in
      let q = queued_all max_bytes es (record { taken = []; waiting = bytes }) in
      (r.handed ≡ q.taken) × (q.taken ++ q.waiting ≡ r.file.bytes)
on_events-queue max_bytes es inode bytes told =
    let (handed, all, kept) =
      on_events-Matches max_bytes es (new_reader inode bytes)
        (record { taken = []; waiting = bytes }) (refl, refl, inr (refl, refl)) told in
    (handed, all)
