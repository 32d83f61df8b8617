-- ===== src/Runner/Logs.antt =====
-- The log buffer of backend/worker/runner.py, and what reaches the table of logs.
use mathlib.Core.List.{append_assoc, append-nil, map-append}
use distributed_asynchronous.Prelude.{
  ℕ, ◌+◌, ◌≡◌, refl, sym, ap, ◌∙◌, List, [], ◌∷◌, ◌++◌, map, String, arith, inl, inr, Bool-cases,
  leb, length,
}
use distributed_asynchronous.Models.{Database, JobRunLog, Time}
use distributed_asynchronous.Store.Defs.{append_logs, log_rows}
use distributed_asynchronous.Runner.Defs.{
  World, LogBuffer, new_buffer, flush, write, Event, logs, run_events, flush_every,
}

-- A log line: its run, its stream and its text.
abbrev pub line_of : JobRunLog → ℕ × String × String
line_of row = (row.run_id, row.stream, row.line)

abbrev pub lines : Database → List (ℕ × String × String)
lines db = map line_of db.logs

abbrev pub tagged : ℕ → List (String × String) → List (ℕ × String × String)
tagged i [] = []
tagged i ((stream, text) ∷ rest) = (i, stream, text) ∷ tagged i rest

map-log_rows :
    (i : ℕ) (now : Time) (next : ℕ) (entries : List (String × String))
    → map line_of (log_rows i now next entries) ≡ tagged i entries
map-log_rows i now next [] = refl
map-log_rows i now next ((stream, text) ∷ rest) =
    ap (λ l. (i, stream, text) ∷ l) (map-log_rows i now (next + 1) rest)

lines-append_logs :
    (i : ℕ) (entries : List (String × String)) (now : Time) (db : Database)
    → lines (append_logs i entries now db) ≡ lines db ++ tagged i entries
unfolding append_logs
lines-append_logs i [] now db = sym (append-nil (lines db))
lines-append_logs i (x ∷ xs) now db =
    rw map-append (ap (λ l. lines db ++ l) (map-log_rows i now db.next_log_id (x ∷ xs)))

tagged-append :
    (i : ℕ) (xs ys : List (String × String)) → tagged i (xs ++ ys) ≡ tagged i xs ++ tagged i ys
tagged-append i [] ys = refl
tagged-append i ((s, t) ∷ xs) ys = ap (λ l. (i, s, t) ∷ l) (tagged-append i xs ys)

-- What is logged for a run: the rows in the database, then the lines in the buffer.
abbrev logged : LogBuffer × World → List (ℕ × String × String)
logged (b, w) = lines w.db ++ tagged b.run_id b.buf

logged-flush : (b : LogBuffer) (w : World) → logged (flush b w) ≡ logged (b, w)
unfolding flush
logged-flush b w = go b.buf
  where
    go :
        (buf : List (String × String))
        → logged (flush (record b { buf = buf }) w) ≡ logged (record b { buf = buf }, w)
    go [] = refl
    go (x ∷ xs) = append-nil _ ∙ lines-append_logs b.run_id (x ∷ xs) w.clock w.db

logged-write :
    (stream text : String) (b : LogBuffer) (w : World)
    → logged (write stream text b w) ≡ logged (b, w) ++ (b.run_id, stream, text) ∷ []
unfolding write
logged-write stream text b w =
    let b' = record b { buf = b.buf ++ (stream, text) ∷ [] } in
    let added : logged (b', w) ≡ logged (b, w) ++ (b.run_id, stream, text) ∷ [] =
      rw tagged-append (sym (append_assoc (lines w.db) (tagged b.run_id b.buf) _)) in
    elim (Bool-cases (leb flush_every (length b'.buf))) [
      | inl full ↦ rw full (logged-flush b' w ∙ added)
      | inr room ↦ rw room added
    ]

run_id-write :
    (stream text : String) (b : LogBuffer) (w : World) → (write stream text b w).0.run_id ≡ b.run_id
unfolding write
run_id-write stream text b w = ground arith

abbrev pub all_logs : List (String × String) → List Event
all_logs [] = []
all_logs ((stream, text) ∷ rest) = logs stream text ∷ all_logs rest

logged-run_events :
    (entries : List (String × String)) (b : LogBuffer) (w : World)
    → logged (run_events (all_logs entries) b w) ≡ logged (b, w) ++ tagged b.run_id entries
unfolding run_events
logged-run_events [] b w = sym (append-nil _)
logged-run_events ((s, t) ∷ rest) b w =
    let (b', w') = write s t b w in
    logged-run_events rest b' w'
    ∙ rw (logged-write s t b w, run_id-write s t b w)
        (append_assoc (logged (b, w)) ((b.run_id, s, t) ∷ []) (tagged b.run_id rest))

buf-flush : (b : LogBuffer) (w : World) → (flush b w).0.buf ≡ []
unfolding flush
buf-flush b w = ground arith

logged_of_flush : (b : LogBuffer) (w : World) → lines (flush b w).1.db ≡ logged (b, w)
logged_of_flush b w =
    let (b', w') = flush b w in
    sym (append-nil (lines w'.db))
    ∙ ap (λ l. lines w'.db ++ tagged b'.run_id l) (sym (buf-flush b w))
    ∙ logged-flush b w

-- Whatever the batches, the lines that an executor writes reach the table of logs once each, in
-- their order and behind those that were there, when the buffer is flushed at the end.
pub run_events-logs :
    (i : ℕ) (entries : List (String × String)) (w : World)
    → (let (b, w') = run_events (all_logs entries) (new_buffer i) w in lines (flush b w').1.db)
      ≡ lines w.db ++ tagged i entries
run_events-logs i entries w =
    let (b, w') = run_events (all_logs entries) (new_buffer i) w in
    logged_of_flush b w'
    ∙ logged-run_events entries (new_buffer i) w
    ∙ ap (λ l. l ++ tagged i entries) (append-nil (lines w.db))
