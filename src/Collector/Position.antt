-- ===== src/Collector/Position.antt =====
-- ui/app/collector.py: the position of read_logs in a log file. The text of the setting that keeps it
-- stands here as its two numbers.
use openvpn_server.Base.{
  ℕ, ◌+◌, ◌<◌, ◌≡◌, ◌≢◌, ◌⊎◌, Bool, true, false, ◌&&◌, List, [], ◌∷◌, ◌++◌, Text, nonempty, length,
  take, drop, leb, ◌==◌, if◌then◌else◌,
}

-- The setting "logpos:<file>"; "0:0" where there is none.
pub record Mark : Type 0 where
  pub inode : ℕ
  pub offset : ℕ

pub record LogFile : Type 0 where
  pub inode : ℕ
  pub bytes : Text

abbrev pub position : LogFile → Mark → ℕ
position f mark =
    if mark.inode == f.inode && leb mark.offset (length f.bytes) then mark.offset else 0

-- `data[:data.rfind(b"\n") + 1]`
unfoldable pub whole : Text → Text
whole [] = []
whole (c ∷ s) =
    let rest = whole s in if nonempty rest then c ∷ rest else if c == 10 then c ∷ [] else []

-- What one call hands to the parser, and the position that it keeps.
abbrev pub next_mark : LogFile → Mark → ℕ → Text → Text × Mark
next_mark f mark pos [] = ([], mark)
next_mark f mark pos (c ∷ chunk) =
    (c ∷ chunk, record { inode = f.inode; offset = pos + length (c ∷ chunk) })

unfoldable pub read_file : ℕ → LogFile → Mark → Text × Mark
read_file max_bytes f mark =
    let pos = position f mark in next_mark f mark pos (whole (take max_bytes (drop pos f.bytes)))

-- What happens to a log: OpenVPN appends to it, it is emptied in place (copy-and-truncate), another
-- file with an inode and what it holds replaces it, or it is read.
pub data LogEvent : Type 0 where
  appends : Text → LogEvent
  truncates : LogEvent
  replaced : ℕ → Text → LogEvent
  reads : LogEvent

-- The file, the kept position, what was handed over of this file, and whether the file was begun anew
-- since the position was kept.
pub record Reader : Type 0 where
  pub file : LogFile
  pub mark : Mark
  pub handed : Text
  pub renewed : Bool

abbrev pub after_read : Reader → Text × Mark → Reader
after_read r ([], mark) = record r { mark = mark }
after_read r (c ∷ chunk, mark) = record r {
  mark = mark;
  handed = r.handed ++ c ∷ chunk;
  renewed = false;
}

abbrev pub begin_anew : LogFile → Reader → Reader
begin_anew f r = record r { file = f; handed = []; renewed = true }

unfoldable pub on_event : ℕ → LogEvent → Reader → Reader
on_event max_bytes (appends s) r = record r {
  file = record { inode = r.file.inode; bytes = r.file.bytes ++ s };
}
on_event max_bytes truncates r = begin_anew (record { inode = r.file.inode; bytes = [] }) r
on_event max_bytes (replaced inode s) r = begin_anew (record { inode = inode; bytes = s }) r
on_event max_bytes reads r = after_read r (read_file max_bytes r.file r.mark)

unfoldable pub on_events : ℕ → List LogEvent → Reader → Reader
on_events max_bytes [] r = r
on_events max_bytes (e ∷ es) r = on_events max_bytes es (on_event max_bytes e r)

-- What the reader promises, without inodes and positions: a queue from which each read moves the
-- whole lines of its first bytes, and which is begun anew with the file.
pub record Queue : Type 0 where
  pub taken : Text
  pub waiting : Text

unfoldable pub queued : ℕ → LogEvent → Queue → Queue
queued max_bytes (appends s) q = record q { waiting = q.waiting ++ s }
queued max_bytes truncates q = record { taken = []; waiting = [] }
queued max_bytes (replaced inode s) q = record { taken = []; waiting = s }
queued max_bytes reads q =
    let chunk = whole (take max_bytes q.waiting) in
    record { taken = q.taken ++ chunk; waiting = drop (length chunk) q.waiting }

unfoldable pub queued_all : ℕ → List LogEvent → Queue → Queue
queued_all max_bytes [] q = q
queued_all max_bytes (e ∷ es) q = queued_all max_bytes es (queued max_bytes e q)

-- A file that was begun anew can be told from the one that the position was kept of: by its inode, or
-- since it is shorter than the position, or since nothing was read of that one.
abbrev pub IsTold : LogFile → Mark → Type 0
IsTold f mark = (mark.inode ≢ f.inode) ⊎ ((length f.bytes < mark.offset) ⊎ (mark.offset ≡ 0))

-- Whenever the log is read, it can be told if it was begun anew.
abbrev pub AreTold : ℕ → List LogEvent → Reader → Type 0
AreTold max_bytes [] r = Unit
AreTold max_bytes (appends s ∷ es) r = AreTold max_bytes es (on_event max_bytes (appends s) r)
AreTold max_bytes (truncates ∷ es) r = AreTold max_bytes es (on_event max_bytes truncates r)
AreTold max_bytes (replaced inode s ∷ es) r =
    AreTold max_bytes es (on_event max_bytes (replaced inode s) r)
AreTold max_bytes (reads ∷ es) r =
    (r.renewed ≡ true → IsTold r.file r.mark) × AreTold max_bytes es (on_event max_bytes reads r)
