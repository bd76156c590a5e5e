-- ===== src/Scenarios/World.antt =====
-- A Kubernetes API that accepts every write and keeps what is written, agents that answer, and a
-- pipeline of two stages.
use cluster.Prelude.{
  Str, lit, str_eq, str_eq_refl, pos, false, ◌&&◌, none, some, List, [], ◌∷◌, ◌++◌, length, ◌≡◌,
  refl, arith, inl, inr, Bool-cases, if◌then◌else◌,
}
use cluster.Api.{PipelinePhase, TriggerType, StageSpec, ObjectMeta, AgentPipeline}
use cluster.Runner.Types.{Result, ok, err, RunStatus, RunRequest, RunResult}
use cluster.Controller.Env.{Env, ObjectKey, ConfigMap, found, Call, Trace, FinalizerLaws}
use cluster.Controller.Stages.{contains}
use cluster.Controller.Server.{stored, IsConsistent}
use cluster.Controller.Keeping.{key_of, writes_key}
use cluster.Controller.Steps.{Fault, status_refused, update_refused, store_refused, owner_refused}

abbrev pub pipeline_key : ObjectKey
pipeline_key = record { namespace = lit "ops"; name = lit "p" }

abbrev pub stage_of : Str → List Str → StageSpec
stage_of name deps = record {
  name = name;
  agent_ref = record { name = name ++ lit "-agent"; namespace = [] };
  timeout = none;
  depends_on = deps;
  prompt = [];
  inputs = [];
  config = none;
  retry_policy = none;
}

-- Stages `a` and `b`, the second behind the first, with one retry each.
abbrev pub demo : AgentPipeline
demo = record {
  meta = record {
    name = lit "p";
    namespace = lit "ops";
    generation = 1;
    finalizers = [];
    deletion_timestamp = none;
    labels = [];
    owners = [];
  };
  spec = record {
    trigger = record { type_of = TriggerType.manual; alertmanager = none };
    stages = stage_of (lit "a") [] ∷ stage_of (lit "b") (lit "a" ∷ []) ∷ [];
    retry_policy = some (record { max_retries = pos 1; backoff = none });
  };
  status = record {
    phase = PipelinePhase.unset;
    current_stage = [];
    started_at = none;
    completed_at = none;
    stages = [];
    conditions = [];
  };
}

abbrev pub remove_all : Str → List Str → List Str
remove_all f [] = []
remove_all f (x ∷ xs) = let rest = remove_all f xs in if str_eq x f then rest else x ∷ rest

remove_all-contains : (f : Str) (xs : List Str) → contains (remove_all f xs) f ≡ false
unfolding contains
remove_all-contains f [] = refl
remove_all-contains f (x ∷ xs) = elim (Bool-cases (str_eq x f)) [
  | inl same ↦ rw same (remove_all-contains f xs)
  | inr other ↦ rw other (ground (arith, remove_all-contains f xs))
]

abbrev pub ok_or : Result ConfigMap → ConfigMap → ConfigMap
ok_or (ok base) cm = base
ok_or (err e) cm = cm

-- The ConfigMap of that key, as the writes made it.
abbrev pub kept : ObjectKey → Trace → Result ConfigMap
kept key [] = err (lit "not found")
kept key (Call.create_or_update cm mutate none ∷ t) =
    let earlier = kept key t in
    if str_eq cm.meta.namespace key.namespace && str_eq cm.meta.name key.name
    then ok (mutate (ok_or earlier cm))
    else earlier
kept key (_ ∷ t) = kept key t

-- The world whose agents answer as `answers` says.
abbrev pub world : AgentPipeline → (Trace → RunRequest → Result RunResult) → Env
world p answers = record {
  get_pipeline = λ t key. found (stored p t);
  get_config_map = λ t key. kept key t;
  update = λ t q. none;
  status_update = λ t q. none;
  create_or_update = λ t cm mutate. none;
  set_controller_reference = λ q cm. ok cm;
  run_agent = answers;
  now = λ t. length t;
  contains_finalizer = λ (m : ObjectMeta) f. contains m.finalizers f;
  add_finalizer = λ (m : ObjectMeta) f. record m { finalizers = f ∷ m.finalizers };
  remove_finalizer = λ (m : ObjectMeta) f. record m { finalizers = remove_all f m.finalizers };
  set_status_condition = λ cs c. c ∷ [];
  parse_template = λ s. none;
  execute_template = λ s previous inputs outputs. ok s;
  quote = λ s. b'"' ∷ (s ++ (b'"' ∷ []));
  show_seconds = λ d. lit "1s";
}

-- Each agent returns its prompt with an exclamation mark.
abbrev pub echo : Trace → RunRequest → Result RunResult
echo t req = ok (record {
  task_id = lit "task";
  output = req.prompt ++ lit "!";
  status = RunStatus.completed;
  duration = pos 0;
  error = [];
})

-- No agent answers.
abbrev pub silent : Trace → RunRequest → Result RunResult
silent t req = err (lit "no route")

abbrev pub demo_world : Env
demo_world = world demo echo

pub demo-FinalizerLaws : FinalizerLaws demo_world
unfolding contains
demo-FinalizerLaws = record {
  added = λ m f. ground (arith, str_eq_refl f);
  removed = λ m f. remove_all-contains f m.finalizers;
  add_keeps = λ m f. refl;
  remove_keeps = λ m f. refl;
}

pub demo-IsConsistent : IsConsistent demo_world pipeline_key demo
demo-IsConsistent = record { reads = λ t. refl }

pub demo-faultless : ¬ Fault demo_world
demo-faultless (status_refused t q e h) = cc
demo-faultless (update_refused t q e h) = cc
demo-faultless (store_refused t cm mutate e h) = cc
demo-faultless (owner_refused p cm e h) = cc

pub kept-written :
    (t : Trace) (cm : ConfigMap) (mutate : ConfigMap → ConfigMap)
    → (base : ConfigMap) × (kept (key_of cm) (Call.create_or_update cm mutate none ∷ t)
        ≡ ok (mutate base))
kept-written t cm mutate = (
  ok_or (kept (key_of cm) t) cm,
  rw (str_eq_refl cm.meta.namespace, str_eq_refl cm.meta.name) refl,
)

pub kept-untouched :
    (t : Trace) (c : Call) (k : ObjectKey) → writes_key c k ≡ false → kept k (c ∷ t) ≡ kept k t
kept-untouched t (Call.create_or_update cm mutate none) k h = rw h refl
kept-untouched t (Call.create_or_update cm mutate (some e)) k h = refl
kept-untouched t (Call.get_pipeline _) k h = refl
kept-untouched t (Call.get_config_map _) k h = refl
kept-untouched t (Call.update _ _) k h = refl
kept-untouched t (Call.status_update _ _) k h = refl
kept-untouched t (Call.run_agent _) k h = refl
kept-untouched t (Call.event _ _ _) k h = refl
