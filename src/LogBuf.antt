-- ===== src/LogBuf.antt =====
-- internal/pkg/logbuf/logbuf.go: the tail of a process log in memory, beside the file on disk.
pub mod Stream
mod Tests
use tunnel_manager.Prelude.{
  ℕ, zero, suc, ◌+◌, ◌-◌, Bool, true, false, List, [], ◌∷◌, ◌++◌, Option, none, some, ◌==◌, ltb,
  if◌then◌else◌, length, drop, Result, ok, err, Error,
}
use tunnel_manager.Prelude.Text.{Bytes}
use tunnel_manager.Hub
use tunnel_manager.Hub.{Hub}

-- `file` holds what was flushed to disk, `is_open` whether the file has not been closed.
pub record Buffer : Type 0 where
  pub capacity : ℕ
  pub lines : List Bytes
  pub partial : Bytes
  pub file : Bytes
  pub is_open : Bool
  pub hub : Hub

-- `NewBuffer` once the file is open: it appends to what the file holds.
abbrev pub new_buffer : Bytes → ℕ → Buffer
new_buffer contents capacity = record {
  capacity = capacity;
  lines = [];
  partial = [];
  file = contents;
  is_open = true;
  hub = Hub.empty;
}

-- `strings.IndexByte(partial, '\n')` with the two slices: before the newline, and after it.
cut_line : Bytes → Option (Bytes × Bytes)
cut_line [] = none
cut_line (c ∷ s) =
    if c == 10
    then some ([], s)
    else elim (cut_line s) [ none ↦ none | some (line, after) ↦ some (c ∷ line, after) ]

-- `b.lines = append(b.lines, line)`, then the cut to the last `capacity` lines.
push_line : ℕ → List Bytes → Bytes → List Bytes
push_line capacity lines line =
    let longer = lines ++ line ∷ [] in
    if ltb capacity (length longer) then drop (length longer - capacity) longer else longer

pub record Scanned : Type 0 where
  pub lines : List Bytes
  pub partial : Bytes
  pub completed : Bool

-- The loop of `Write`. A round takes at least a byte off `partial`, so that its length and one is
-- fuel enough.
drain_lines : ℕ → ℕ → List Bytes → Bytes → Bool → Scanned
unfolding cut_line push_line
drain_lines zero capacity lines partial completed = record {
  lines = lines;
  partial = partial;
  completed = completed;
}
drain_lines (suc fuel) capacity lines partial completed = elim (cut_line partial) [
  | none ↦ record { lines = lines; partial = partial; completed = completed }
  | some (line, after) ↦ drain_lines fuel capacity (push_line capacity lines line) after true
]

abbrev scan : Buffer → Bytes → Scanned
scan b p =
    let text = b.partial ++ p in drain_lines (suc (length text)) b.capacity b.lines text false

-- What `Write` does once the bytes are on disk.
accept : Buffer → Bytes → Buffer
unfolding drain_lines Hub.publish
accept b p =
    let s = scan b p in
    record b {
      lines = s.lines;
      partial = s.partial;
      file = b.file ++ p;
      hub = if s.completed then Hub.publish b.hub else b.hub;
    }

-- `disk` is the error of the buffered write or of the flush, if there is one, with the bytes that
-- reached the file all the same.
unfoldable pub write : Buffer → Bytes → Option (Error × Bytes) → Buffer × Result ℕ
unfolding accept
write b p none = (accept b p, ok (length p))
write b p (some (e, flushed)) = (record b { file = b.file ++ flushed }, err e)

unfoldable pub snapshot_and_subscribe : Buffer → Buffer × (List Bytes × ℕ)
unfolding Hub.subscribe
snapshot_and_subscribe b =
    let (hub, channel) = Hub.subscribe b.hub in (record b { hub = hub }, (b.lines, channel))

unfoldable pub cancel : Buffer → ℕ → Buffer
unfolding Hub.cancel
cancel b channel = record b { hub = Hub.cancel b.hub channel }

abbrev pub lines_of : Buffer → List Bytes
lines_of b = b.lines

-- `flush` and `closing` are the errors of the flush and of closing the file.
unfoldable pub close : Buffer → Option Error → Option Error → Buffer × Result (Unit {0})
close b (some e) closing = (b, err e)
close b none (some e) = (record b { is_open = false }, err e)
close b none none = (record b { is_open = false }, ok tt)

-- A run of writes, each with what the disk does.
pub writes : Buffer → List (Bytes × Option (Error × Bytes)) → Buffer
unfolding write
writes b [] = b
writes b ((p, disk) ∷ ps) = writes (write b p disk).0 ps
