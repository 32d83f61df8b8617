-- ===== src/Api/Jobs/Update/Merged.antt =====
-- The columns that a payload of backend/common/schemas.py, JobUpdate, asks for.
use distributed_asynchronous.Prelude.{◌≡◌, refl, subst, Option, none, some, arith}
use distributed_asynchronous.Models.{Job}
use distributed_asynchronous.Api.Jobs.{JobCreate}
use distributed_asynchronous.Api.Jobs.Update.{
  Given, unset, null, value, over, over_nullable, ◌>>=◌, JobUpdate, given_ids, or_empty, merged,
}

-- A member of the payload in place of a column: the new value is the given one, or the old one where the
-- member is left out. A null is a value only for a column that may be null.
abbrev pub Sets : {A : Type 0} → Given A → (old new : A) → Type 0
Sets unset old new = new ≡ old
Sets null old new = ⊥
Sets (value x) old new = new ≡ x

abbrev pub SetsNullable : {A : Type 0} → Given A → (old new : Option A) → Type 0
SetsNullable unset old new = new ≡ old
SetsNullable null old new = new ≡ none
SetsNullable (value x) old new = new ≡ some x

-- The columns after an update, member by member.
pub record IsMerged (job : Job) (payload : JobUpdate) (p : JobCreate) : Type 0 where
  pub name : p.name ≡ job.name
  pub description : SetsNullable payload.description job.description p.description
  pub category : SetsNullable payload.category job.category p.category
  pub task_type : Sets payload.task_type job.task_type p.task_type
  pub task_spec : Sets payload.task_spec job.task_spec p.task_spec
  pub schedule_type : Sets payload.schedule_type job.schedule_type p.schedule_type
  pub schedule_expr : SetsNullable payload.schedule_expr job.schedule_expr p.schedule_expr
  pub timezone : Sets payload.timezone job.timezone p.timezone
  pub enabled : Sets payload.enabled job.enabled p.enabled
  pub max_retries : Sets payload.max_retries job.max_retries p.max_retries
  pub retry_backoff_sec : Sets payload.retry_backoff_sec job.retry_backoff_sec p.retry_backoff_sec
  pub timeout_sec : Sets payload.timeout_sec job.timeout_sec p.timeout_sec
  pub depends_on : p.depends_on ≡ or_empty (given_ids payload.depends_on)

over-Sets : {A : Type 0} (g : Given A) (old new : A) → over g old ≡ some new → Sets g old new
over-Sets unset old new h = ground arith
over-Sets null old new h = cc
over-Sets (value x) old new h = ground arith

over_nullable-Sets :
    {A : Type 0} (g : Given A) (old : Option A) → SetsNullable g old (over_nullable g old)
over_nullable-Sets unset old = refl
over_nullable-Sets null old = refl
over_nullable-Sets (value x) old = refl

-- What a chain of values that are all there has given.
bind-some :
    {A B : Type 0} (o : Option A) (f : A → Option B) (b : B)
    → (o >>= f) ≡ some b
    → (a : A) × (o ≡ some a) × (f a ≡ some b)
bind-some none f b h = cc
bind-some (some a) f b h = (a, refl, h)

of_some : {A : Type 0} {a b : A} → some a ≡ some b → a ≡ b
of_some h = ground arith

pub merged-IsMerged :
    (job : Job) (payload : JobUpdate) (p : JobCreate)
    → merged job payload ≡ some p
    → IsMerged job payload p
unfolding merged
merged-IsMerged job payload p h =
    let (task_type, e1, h1) = bind-some _ _ p h in
    let (task_spec, e2, h2) = bind-some _ _ p h1 in
    let (schedule_type, e3, h3) = bind-some _ _ p h2 in
    let (timezone, e4, h4) = bind-some _ _ p h3 in
    let (enabled, e5, h5) = bind-some _ _ p h4 in
    let (max_retries, e6, h6) = bind-some _ _ p h5 in
    let (retry_backoff_sec, e7, h7) = bind-some _ _ p h6 in
    let (timeout_sec, e8, h8) = bind-some _ _ p h7 in
    subst (IsMerged job payload) (of_some h8) (record {
      name = refl;
      description = over_nullable-Sets payload.description job.description;
      category = over_nullable-Sets payload.category job.category;
      task_type = over-Sets payload.task_type job.task_type task_type e1;
      task_spec = over-Sets payload.task_spec job.task_spec task_spec e2;
      schedule_type = over-Sets payload.schedule_type job.schedule_type schedule_type e3;
      schedule_expr = over_nullable-Sets payload.schedule_expr job.schedule_expr;
      timezone = over-Sets payload.timezone job.timezone timezone e4;
      enabled = over-Sets payload.enabled job.enabled enabled e5;
      max_retries = over-Sets payload.max_retries job.max_retries max_retries e6;
      retry_backoff_sec =
          over-Sets payload.retry_backoff_sec job.retry_backoff_sec retry_backoff_sec e7;
      timeout_sec = over-Sets payload.timeout_sec job.timeout_sec timeout_sec e8;
      depends_on = refl;
    })
