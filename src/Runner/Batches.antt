-- ===== src/Runner/Batches.antt =====
-- LogBuffer of backend/worker/runner.py where its calls overlap: flush hands a batch to a thread and
-- awaits it, while the other pump of the shell executor writes on. The threads commit their batches in any
-- order, and a batch whose transaction raises is lost.
use distributed_asynchronous.Prelude.{
  ℕ, zero, suc, ◌+◌, ◌≡◌, refl, ap, ◌∙◌, Bool, ◌&&◌, Option, none, some, List, [], ◌∷◌, ◌++◌,
  String, arith, inl, inr, Bool-cases, leb, length, ◌==◌, ==-refl, if◌then◌else◌,
}
use distributed_asynchronous.Models.{Time, Database, JobRunLog}
use distributed_asynchronous.Store.Defs.{append_logs, log_rows}
use distributed_asynchronous.Runner.Defs.{flush_every}

abbrev pub Entry : Type 0
Entry = String × String

-- The buffer, the batches that threads are committing, those that were lost, and the database.
pub record Batches : Type 0 where
  pub run_id : ℕ
  pub buf : List Entry
  pub taken : List (List Entry)
  pub lost : List (List Entry)
  pub db : Database

-- What happens next: a line is written, flush is called, or a thread ends with the batch that stands at a
-- place among those taken.
pub data Act : Type 0 where
  writes : (stream line : String) → Act
  flushes : Act
  commits raises : (place : ℕ) → (now : Time) → Act

-- batch, self._buf = self._buf, [], unless there is nothing
abbrev pub hand_over : List Entry → Batches → Batches
hand_over [] s = s
hand_over (e ∷ es) s = record s { buf = []; taken = s.taken ++ (e ∷ es) ∷ [] }

abbrev pub write_line : Entry → Batches → Batches
write_line e s =
    let s' = record s { buf = s.buf ++ e ∷ [] } in
    if leb flush_every (length s'.buf) then hand_over s'.buf s' else s'

-- The batch at a place, and the others.
abbrev pub take_out : ℕ → List (List Entry) → Option (List Entry × List (List Entry))
take_out place [] = none
take_out zero (b ∷ bs) = some (b, bs)
take_out (suc place) (b ∷ bs) = elim (take_out place bs) [
  | none ↦ none
  | some (x, xs) ↦ some (x, b ∷ xs)
]

abbrev pub commit : Time → Option (List Entry × List (List Entry)) → Batches → Batches
commit now none s = s
commit now (some (b, rest)) s = record s { taken = rest; db = append_logs s.run_id b now s.db }

abbrev pub lose : Option (List Entry × List (List Entry)) → Batches → Batches
lose none s = s
lose (some (b, rest)) s = record s { taken = rest; lost = s.lost ++ b ∷ [] }

unfoldable pub act : Act → Batches → Batches
act (writes stream line) s = write_line (stream, line) s
act flushes s = hand_over s.buf s
act (commits place now) s = commit now (take_out place s.taken) s
act (raises place now) s = lose (take_out place s.taken) s

unfoldable pub act_all : List Act → Batches → Batches
unfolding act
act_all [] s = s
act_all (a ∷ acts) s = act_all acts (act a s)

-- How many entries pass a test.
abbrev pub tally : (Entry → Bool) → List Entry → ℕ
tally test [] = 0
tally test (e ∷ es) = (if test e then 1 else 0) + tally test es

abbrev pub tally_all : (Entry → Bool) → List (List Entry) → ℕ
tally_all test [] = 0
tally_all test (b ∷ bs) = tally test b + tally_all test bs

-- How many rows of the table of logs are of the run and pass the test.
abbrev pub tally_rows : (Entry → Bool) → ℕ → List JobRunLog → ℕ
tally_rows test run_id [] = 0
tally_rows test run_id (l ∷ ls) =
    (if l.run_id == run_id && test (l.stream, l.line) then 1 else 0) + tally_rows test run_id ls

-- The lines that are written.
abbrev pub written : List Act → List Entry
written [] = []
written (writes stream line ∷ acts) = (stream, line) ∷ written acts
written (flushes ∷ acts) = written acts
written (commits place now ∷ acts) = written acts
written (raises place now ∷ acts) = written acts

module _ (test : Entry → Bool) where
  -- Where a line can be: buffered, with a thread, lost, or in the table.
  abbrev pub accounted : Batches → ℕ
  accounted s =
      tally test s.buf
      + tally_all test s.taken
      + tally_all test s.lost
      + tally_rows test s.run_id s.db.logs

  tally-append : (xs ys : List Entry) → tally test (xs ++ ys) ≡ tally test xs + tally test ys
  tally-append [] ys = omega arith
  tally-append (x ∷ xs) ys = omega (arith, tally-append xs ys)

  tally_all-append :
      (xs ys : List (List Entry))
      → tally_all test (xs ++ ys) ≡ tally_all test xs + tally_all test ys
  tally_all-append [] ys = omega arith
  tally_all-append (x ∷ xs) ys = omega (arith, tally_all-append xs ys)

  tally_rows-append :
      (i : ℕ) (xs ys : List JobRunLog)
      → tally_rows test i (xs ++ ys) ≡ tally_rows test i xs + tally_rows test i ys
  tally_rows-append i [] ys = omega arith
  tally_rows-append i (x ∷ xs) ys = omega (arith, tally_rows-append i xs ys)

  tally-log_rows :
      (i : ℕ) (now : Time) (next : ℕ) (es : List Entry)
      → tally_rows test i (log_rows i now next es) ≡ tally test es
  tally-log_rows i now next [] = refl
  tally-log_rows i now next ((stream, line) ∷ es) =
      ground (arith, tally-log_rows i now (next + 1) es, ==-refl i)

  tally-append_logs :
      (i : ℕ) (es : List Entry) (now : Time) (db : Database)
      → tally_rows test i (append_logs i es now db).logs ≡ tally_rows test i db.logs + tally test es
  unfolding append_logs
  tally-append_logs i [] now db = omega arith
  tally-append_logs i (e ∷ es) now db =
      tally_rows-append i db.logs (log_rows i now db.next_log_id (e ∷ es))
      ∙ ap (λ n. tally_rows test i db.logs + n) (tally-log_rows i now db.next_log_id (e ∷ es))

  accounted-hand_over :
      (es : List Entry) (s : Batches) → s.buf ≡ es → accounted (hand_over es s) ≡ accounted s
  accounted-hand_over [] s e = refl
  accounted-hand_over (x ∷ es) s e =
      let same : tally test s.buf ≡ tally test (x ∷ es) = ap (tally test) e in
      omega (arith, same, tally_all-append s.taken ((x ∷ es) ∷ []))

  tally-take_out :
      (place : ℕ) (bs : List (List Entry)) (b : List Entry) (rest : List (List Entry))
      → take_out place bs ≡ some (b, rest)
      → tally_all test bs ≡ tally test b + tally_all test rest
  tally-take_out place [] b rest e = cc
  tally-take_out zero (x ∷ bs) b rest e = ground arith
  tally-take_out (suc place) (x ∷ bs) b rest e =
      go (take_out place bs) refl (λ y ys. tally-take_out place bs y ys)
    where
      go :
          (o : Option (List Entry × List (List Entry)))
          → take_out place bs ≡ o
          → ((y : List Entry) (ys : List (List Entry))
              → take_out place bs ≡ some (y, ys)
              → tally_all test bs ≡ tally test y + tally_all test ys)
          → tally_all test (x ∷ bs) ≡ tally test b + tally_all test rest
      go none f rest' = ground arith
      go (some (y, ys)) f rest' = ground (arith, rest' y ys f)

  accounted-act :
      (a : Act) (s : Batches) → accounted (act a s) ≡ accounted s + tally test (written (a ∷ []))
  unfolding act
  accounted-act (writes stream line) s =
      let s' = record s { buf = s.buf ++ (stream, line) ∷ [] } in
      elim (Bool-cases (leb flush_every (length s'.buf))) [
        | inl full ↦ rw full (
            accounted-hand_over s'.buf s' refl
            ∙ omega (arith, tally-append s.buf ((stream, line) ∷ [])))
        | inr room ↦ rw room (omega (arith, tally-append s.buf ((stream, line) ∷ [])))
      ]
  accounted-act flushes s = accounted-hand_over s.buf s refl ∙ omega arith
  accounted-act (commits place now) s = go (take_out place s.taken) refl
    where
      go :
          (o : Option (List Entry × List (List Entry)))
          → take_out place s.taken ≡ o
          → accounted (commit now o s) ≡ accounted s + 0
      go none e = omega arith
      go (some (b, rest)) e =
          omega
            (arith, tally-take_out place s.taken b rest e, tally-append_logs s.run_id b now s.db)
  accounted-act (raises place now) s = go (take_out place s.taken) refl
    where
      go :
          (o : Option (List Entry × List (List Entry)))
          → take_out place s.taken ≡ o
          → accounted (lose o s) ≡ accounted s + 0
      go none e = omega arith
      go (some (b, rest)) e =
          omega (arith, tally-take_out place s.taken b rest e, tally_all-append s.lost (b ∷ []))

  tally-written :
      (a : Act) (acts : List Act)
      → tally test (written (a ∷ acts)) ≡ tally test (written (a ∷ [])) + tally test (written acts)
  tally-written (writes stream line) acts = omega arith
  tally-written flushes acts = omega arith
  tally-written (commits place now) acts = omega arith
  tally-written (raises place now) acts = omega arith

  -- No line is lost or doubled by the buffer. Whatever is written and flushed, and in whatever order the
  -- batches are committed or raise: for any test on lines, the lines that pass it in the buffer, with
  -- the threads, in batches that were lost and in the run's rows of the table are as many as before,
  -- and those written since.
  pub act_all-accounted :
      (acts : List Act) (s : Batches)
      → accounted (act_all acts s) ≡ accounted s + tally test (written acts)
  unfolding act_all
  act_all-accounted [] s = omega arith
  act_all-accounted (a ∷ acts) s =
      omega (arith, act_all-accounted acts (act a s), accounted-act a s, tally-written a acts)
