-- ===== src/System/Recovery.antt =====
-- Runs whose messages are lost, and the ticks of the scheduler that put them on the stream again.
use distributed_asynchronous.Prelude.{
  ℕ, ◌≤◌, ◌∙◌, inl, inr, Option-cases, ◌==◌, if◌then◌else◌, ◌+◌, ◌<◌, ◌≡◌, refl, ap, true, none,
  some, List, [], ◌∷◌, ◌++◌, arith, Result, ok, err, contains, contains-append,
}
use distributed_asynchronous.Constants.{queued}
use distributed_asynchronous.Models.{Time, seconds, JobRun, Database, run_by_id}
use distributed_asynchronous.Models.Progress.{IsValid, Progress, Progress-refl, run_by_id-lt}
use distributed_asynchronous.Queue.Server.{Redis}
use distributed_asynchronous.Queue.Promote.{perform_all}
use distributed_asynchronous.Queue.Streams.{added, added-append, stream-perform_all}
use distributed_asynchronous.Queue.{Command, enqueue_run, promote_script}
use distributed_asynchronous.Scheduler.Cron.{Stop}
use distributed_asynchronous.Scheduler.Tick.{
  Outcome, schedule_due_jobs, requeue_orphans, enqueue_all, tick,
}
use distributed_asynchronous.Scheduler.Tick.Progress.{tick-Progress}
use distributed_asynchronous.Scheduler.Tick.Orphans.{requeue_orphans_lem}
use distributed_asynchronous.System.{Environment, Transaction, promote_pending, transact, replay}
use distributed_asynchronous.System.Runs.{transact-Progress}
use distributed_asynchronous.Table.{by_key-update_where, Ascending-update_where}
use distributed_asynchronous.Store.Defs.{promote}

added-enqueue_all : (ids : List ℕ) → added (enqueue_all ids) ≡ ids
unfolding enqueue_all enqueue_run
added-enqueue_all [] = refl
added-enqueue_all (i ∷ ids) = ap (λ rs. i ∷ rs) (added-enqueue_all ids)

added_last :
    (cs ds : List Command) (ids : List ℕ) (i : ℕ)
    → contains ids i ≡ true
    → contains (added (cs ++ (ds ++ enqueue_all ids))) i ≡ true
added_last cs ds ids i h =
    rw
      (
        added-append cs (ds ++ enqueue_all ids),
        added-append ds (enqueue_all ids),
        added-enqueue_all ids,
        contains-append (added cs) (added ds ++ ids) i,
        contains-append (added ds) ids i,
      )
      (ground arith)

-- What a change of the database keeps of every run, also where a promotion is overtaken: the time at
-- which it was created.
record Dated (db later : Database) : Type 0 where
  grows : db.next_run_id ≤ later.next_run_id
  valid : IsValid db → IsValid later
  same :
      (i : ℕ) (r s : JobRun)
      → run_by_id i db ≡ some r
      → run_by_id i later ≡ some s
      → s.created_at ≡ r.created_at
  gone : (i : ℕ) → i < db.next_run_id → run_by_id i db ≡ none → run_by_id i later ≡ none
  used : IsValid db → (i : ℕ) (r : JobRun) → run_by_id i db ≡ some r → i < db.next_run_id

Dated-of_Progress : {a b : Database} → Progress a b → Dated a b
Dated-of_Progress {a} {b} p = record {
  grows = p.grows;
  valid = p.valid;
  same = λ i r s e f. (p.kept i r s e f).created_at;
  gone = p.gone;
  used = λ v i r e. run_by_id-lt a i r v e;
}

Dated-trans : {a b c : Database} → IsValid a → Dated a b → Dated b c → Dated a c
Dated-trans {a} {b} {c} v p q = record {
  grows = omega (arith, p.grows, q.grows);
  valid = λ w. q.valid (p.valid w);
  same = λ i r s e f. elim (Option-cases (run_by_id i b)) [
    | inl absent ↦ cc (q.gone i (omega (arith, p.grows, p.used v i r e)) absent)
    | inr (m, there) ↦ q.same i m s there f ∙ p.same i r m e there
  ];
  gone = λ i lt e. q.gone i (omega (arith, lt, p.grows)) (p.gone i lt e);
  used = p.used;
}

promote-Dated : (i : ℕ) (db : Database) → Dated db (promote i db)
unfolding run_by_id
promote-Dated i db = record {
  grows = omega arith;
  valid =
      λ v. Ascending-update_where (λ (r : JobRun). r.id) 0 db.runs db.next_run_id _ _ (λ r. refl) v;
  same = λ j r s e f. ground (arith, found j);
  gone = λ j lt e. ground (arith, found j);
  used = λ v j r e. run_by_id-lt db j r v e;
}
  where
    found :
        (j : ℕ)
        → run_by_id j (promote i db) ≡ (elim (run_by_id j db) [
          | none ↦ none
          | some r ↦ some (if r.id == i then record r { status = queued } else r)
        ])
    found j =
        unfold run_by_id in
        by_key-update_where (λ (r : JobRun). r.id) (λ r. r.id == i)
          (λ r. record r { status = queued }) j db.runs (λ r. refl)

module _ (env : Environment) where
  transact-Dated :
      (t : Transaction) (now : Time) (db : Database) → IsValid db → Dated db (transact env t now db)
  unfolding transact
  transact-Dated (promote_pending run_id) now db v = promote-Dated run_id db
  transact-Dated t now db v = Dated-of_Progress (transact-Progress env t now db v tt)

  replay-Dated :
      (h : List (Transaction × Time)) (db : Database) → IsValid db → Dated db (replay env h db)
  replay-Dated [] db v = Dated-of_Progress (Progress-refl db)
  replay-Dated ((t, now) ∷ rest) db v =
      let p = transact-Dated t now db v in
      Dated-trans v p (replay-Dated rest (transact env t now db) (p.valid v))

module _ (env : Environment) (after : ℕ) (now : Time) (due : List ℕ) where
  -- A tick that raises nothing adds the queued runs older than the threshold.
  tick_orphan :
      (db : Database) (i : ℕ)
      → (tick env.get_next after now due db).raised ≡ none
      → contains (requeue_orphans after now (tick env.get_next after now due db).db) i ≡ true
      → contains (added (tick env.get_next after now due db).commands) i ≡ true
  unfolding tick
  tick_orphan db i = go (schedule_due_jobs env.get_next now db) refl
    where
      go :
          (r : Result Stop (List ℕ × Database))
          → schedule_due_jobs env.get_next now db ≡ r
          → (tick env.get_next after now due db).raised ≡ none
          → contains (requeue_orphans after now (tick env.get_next after now due db).db) i ≡ true
          → contains (added (tick env.get_next after now due db).commands) i ≡ true
      go (err x) e = rw (e, tick) (λ raised h. cc)
      go (ok (ids, later)) e =
          rw (e, tick)
            (λ raised h.
              added_last (promote_script due) (enqueue_all ids) (requeue_orphans after now later) i
                h)

  -- The tick, when the transactions of the history have been committed.
  abbrev pub after_history : List (Transaction × Time) → Database → Outcome
  after_history h db = tick env.get_next after now due (replay env h db)

  -- No queued run is forgotten. From a database with valid run ids, whatever transactions the processes
  -- commit in between and whatever messages are lost: where a run is still queued after a tick
  -- that raises nothing, and it was created more than the threshold before the tick, the tick puts
  -- its message on the stream, on a server with the laws of Redis.
  pub queued_recovered :
      (redis : Redis) (s : redis.State) (h : List (Transaction × Time)) (db : Database) (i : ℕ)
      (old r : JobRun)
      → IsValid db
      → run_by_id i db ≡ some old
      → old.created_at + seconds after < now
      → (after_history h db).raised ≡ none
      → run_by_id i (after_history h db).db ≡ some r
      → r.status ≡ queued
      → contains (redis.stream (perform_all redis (after_history h db).commands s)) i ≡ true
  queued_recovered redis s h db i old r v there aged raised found waits =
      let before = replay env h db in
      let o = tick env.get_next after now due before in
      let p = replay-Dated env h db v in
      let q = tick-Progress env.get_next now after due before (p.valid v) in
      let both = Dated-trans v p (Dated-of_Progress q) in
      let same = both.same i old r there found in
      let named : contains (requeue_orphans after now o.db) i ≡ true =
        rw (requeue_orphans_lem after now o.db i (both.valid v), found, waits)
          (ground (arith, same)) in
      rw
        (
          stream-perform_all redis o.commands s,
          contains-append (redis.stream s) (added o.commands) i,
          tick_orphan before i raised named,
        )
        (ground arith)
