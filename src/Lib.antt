-- ===== src/Lib.antt =====
-- A job scheduler: jobs with schedules and dependencies are stored in PostgreSQL, a scheduler and
-- an API create runs of them and put the runs on a Redis stream, and workers claim, execute and
-- finish the runs.
--
-- The parts, and the files that model them:
-- * Constants and Models are backend/common/constants.py and backend/common/models.py: the words
--   and the rows of the tables. Table holds the statements on a table (select, first, update_where,
--   rowcount, earliest, order_by) that the source builds with SQLAlchemy. Models/Progress says how
--   the runs may change from one state of the database to a later one: no run goes back to an
--   earlier stage, a cancellation is final, and the constraint uq_job_run_tick is kept;
--   Models/Untouched, which operations write the runs only.
-- * Store is backend/worker/store.py: one function of the database for each function there.
-- * Executors is backend/worker/executors/base.py, __init__.py and retry.py, and Executors/Http,
--   Executors/HttpAsync and Executors/Shell are http.py, http_async.py and shell.py there.
-- * Runner is backend/worker/runner.py: LogBuffer (write, flush), process_run with its handlers,
--   _on_success and _on_failure. Runner/Batches is LogBuffer where its calls overlap. A World is
--   the database, the Redis commands sent and the clock.
-- * Queue is backend/common/redis_queue.py and Dispatch is backend/common/dispatch.py: functions
--   into lists of Redis commands. Queue/Server is the interface of Redis that Queue/Promote relies
--   on, and Queue/Client what the functions do with the replies of Redis: exceptions, counters and
--   gauges.
-- * Scheduler/Cron is backend/scheduler/cron.py (next_run_time, due_tick), Scheduler/Leader is
--   backend/scheduler/leader.py, Scheduler/Tick is backend/scheduler/main.py (schedule_due_jobs,
--   requeue_orphans, tick), and Scheduler/Main its main loop.
-- * Api/Trigger is trigger_job of backend/api/routers/jobs.py with _prepare_trigger_run; Api/Jobs
--   is backend/api/crud.py with the validators of backend/common/schemas.py and the listings of
--   runs, Api/Jobs/Update its update_job, and Api/Jobs/Handlers the other handlers of jobs.py;
--   Api/Runs is backend/api/routers/runs.py.
-- * Api/Jobs/Drafts is create_job_draft_from_file of backend/api/routers/jobs.py with its helpers,
--   on FilePath, which is what the source uses of pathlib; Executors/Shell/Uploads follows a draft
--   into the shell executor.
-- * System puts the processes together: a Transaction is a request, a tick or a function of
--   store.py with its arguments, transact is what it does to the database, and replay what a
--   history of them does in the order in which they commit. System/Runs (on System/Writes),
--   System/Claims and System/Executions are about the runs along any history, and System/Recovery
--   (on Queue/Streams) about the runs whose messages are lost.
-- * Migrations is what the scripts of migrations/versions do to a schema: Migrations/Versions has
--   their operations, Migrations/RoundTrip, Chain and UpAndDown are about going up and down, and
--   Migrations/Rows is the SQL that they run on the rows of jobs.
-- * Scheduler/Leader/Election and Scheduler/Leader/Replicas run several schedulers against one
--   server of session locks; Scheduler/Tick/Again, on Scheduler/Tick/Settle, runs the transaction
--   of a tick twice.
-- * Api/Health is backend/api/routers/health.py with the middleware of backend/api/main.py.
-- * Auth is backend/common/auth.py: Auth/Base64 (_b64encode, _b64decode), Auth/Passwords and
--   Auth/Tokens; Auth/Text is what they use of Python's strings. Api/Auth is
--   backend/api/routers/auth.py with get_current_user of backend/api/deps.py, and Api/Users the
--   schemas of users.
-- * Worker is backend/worker/main.py: the state of one worker, with the main loop in three steps
--   (begin, reclaim_stale, read_new), handle in two (enter, finish) and the listener for
--   cancellations; and Worker/Steps the relation of these steps in any order. Worker/Messages is
--   about what the queue sends and a worker reads.
-- * Samples has concrete inputs and the theorems at them; Prelude has the shared notation and
--   lemmas.
--
-- How the code is modelled:
-- * A time is a natural number of microseconds since the epoch, in UTC. Ids, attempts and delays
--   are natural numbers; the columns of 32 and 64 bits do not wrap around, PostgreSQL refuses a
--   value that does not fit.
-- * A table is the list of its rows in the order of insertion, which is the order of ids, as each
--   id comes from the table's sequence. Where the source leaves the order of equal rows open, the
--   order is that of the table.
-- * A function of store.py is one transaction, and so is a request and a tick of the scheduler. The
--   other processes act between transactions: Event.elsewhere in process_run, and `meanwhile` in
--   cancel_run. The transactions that end process_run are not interleaved with others.
-- * PostgreSQL runs at READ COMMITTED. In System the transaction of create_dependency_run, whose
--   UPDATE does not look at the status of the run that its SELECT has found, is therefore split:
--   the UPDATE is a transaction of its own (promote_pending), and the theorems on claims and stages
--   ask that it finds the run still pending (Undisturbed). The other updates of runs test the
--   status in the statement itself; the other transactions insert rows, delete a job, or write
--   jobs, which those theorems do not look at.
-- * That PostgreSQL refuses a log row or a run of a job that was deleted in the meantime, with an
--   exception that ends process_run, is left out, and so is an exception of the database in
--   general.
-- * datetime.max is the last time; an interval that passes it raises OverflowError.
-- * A request whose payload its schema does not accept is answered with 422 before its handler
--   runs, and changes nothing.
-- * The main loop of the scheduler runs over the list of the rounds that it lives to see, each with
--   the time, the reply of Redis, what other processes do before it, and whether a signal arrives;
--   the sleep between rounds is left out. A filename is a text, and its path is that of POSIX.
-- * A schema maps the name of a table to its columns, constraints and indexes. The name that
--   PostgreSQL gives to a constraint without one is a parameter; an operation that PostgreSQL
--   refuses ends the migration. Which other tables depend on a dropped table or column is not
--   looked at, and the autoincrement of ids is left out.
-- * An exception is a result (Result, Stop, Failure, HttpError), and a transaction that raises
--   leaves the database as it was.
-- * An operation reads the clock once. Texts of schedules are ASCII.
-- * croniter is a parameter, with the law that a next fire time is later than the given time; the
--   executors are a parameter, whose foreign acts let the runs progress; PostgreSQL's advisory
--   locks and the Redis server are interfaces.
-- * Passwords and tokens stand on Auth/Crypto: HMAC-SHA256, PBKDF2, UTF-8 and JSON are parameters,
--   which give bytes, and JSON reads back what it wrote. int(text) is modelled for ASCII digits,
--   and the numbers of JSON are integers.
-- * due_tick runs with fuel now - tick + 1, which is enough as each round moves the tick forward;
--   the recursion of a trigger with fuel two more than the number of dependencies, which is enough
--   as the jobs on its stack are distinct and each of them has a dependency; the polling of
--   http_async with one round for each microsecond left, which is enough where the interval between
--   polls is positive, as each round then takes time. The theorems on them state that they end with
--   an answer.
--
-- Not modelled: the histograms and the metrics of the database and the workers, process logs, the
-- engine and configuration, the assembly of the API, the set-up of Alembic, and deployment: they
-- are input and output without a state that another part reads.
pub mod Prelude
pub mod FilePath
pub mod Table
pub mod Constants
pub mod Models
pub mod Store
pub mod Executors
pub mod Queue
pub mod Runner
pub mod Worker
pub mod System
pub mod Migrations
pub mod Dispatch
pub mod Auth
pub mod Scheduler
pub mod Api
pub mod Samples
