-- ===== src/Controller/Env.antt =====
-- What the controller calls and does not implement: the Kubernetes API, the agent runner, the
-- clock, text/template and the helpers of controller-runtime and apimachinery.
-- Each call but those of the clock is added to a trace, newest first, and every answer is a
-- function of the trace so far, so that an `Env` is any behaviour of the world around the
-- controller, its failures included.
use cluster.Prelude.{Str, List, ◌∷◌, Bool, true, false, Option, ◌≡◌}
use cluster.Api.{Time, Duration, StrMap, Condition, ObjectMeta, AgentPipeline}
use cluster.Runner.Types.{Result, RunRequest, RunResult}

-- client.ObjectKey, types.NamespacedName
pub record ObjectKey : Type 0 where
  pub namespace : Str
  pub name : Str

-- corev1.ConfigMap
pub record ConfigMap : Type 0 where
  pub meta : ObjectMeta
  pub contents : StrMap

pub data EventType : Type 0 where
  normal warning : EventType

-- What `Get` of a pipeline answers; `not_found` is the error for which `IsNotFound` holds.
pub data Fetched : Type 0 where
  found : AgentPipeline → Fetched
  not_found : Fetched
  unreachable : Str → Fetched

-- A call with what was sent and, for a write, the error that came back.
pub data Call : Type 0 where
  get_pipeline : ObjectKey → Call
  get_config_map : ObjectKey → Call
  update : AgentPipeline → Option Str → Call
  status_update : AgentPipeline → Option Str → Call
  create_or_update : ConfigMap → (ConfigMap → ConfigMap) → Option Str → Call
  run_agent : RunRequest → Call
  event : EventType → Str → Str → Call

abbrev pub Trace : Type 0
Trace = List Call

pub record Env : Type 0 where
  pub get_pipeline : Trace → ObjectKey → Fetched
  pub get_config_map : Trace → ObjectKey → Result ConfigMap
  pub update : Trace → AgentPipeline → Option Str
  pub status_update : Trace → AgentPipeline → Option Str
  -- controllerutil.CreateOrUpdate with its mutate function
  pub create_or_update : Trace → ConfigMap → (ConfigMap → ConfigMap) → Option Str
  -- controllerutil.SetControllerReference
  pub set_controller_reference : AgentPipeline → ConfigMap → Result ConfigMap
  pub run_agent : Trace → RunRequest → Result RunResult
  -- metav1.Now
  pub now : Trace → Time
  -- controllerutil.ContainsFinalizer, AddFinalizer, RemoveFinalizer
  pub contains_finalizer : ObjectMeta → Str → Bool
  pub add_finalizer : ObjectMeta → Str → ObjectMeta
  pub remove_finalizer : ObjectMeta → Str → ObjectMeta
  -- meta.SetStatusCondition
  pub set_status_condition : List Condition → Condition → List Condition
  -- text/template: the error of `Parse`, and `Execute` on the previous output, the inputs and the
  -- method `StageOutput`
  pub parse_template : Str → Option Str
  pub execute_template : Str → Str → StrMap → (Str → Str) → Result Str
  -- strconv.Quote, the verb %q
  pub quote : Str → Str
  -- the verb %s of a duration rounded to seconds
  pub show_seconds : Duration → Str

-- What controllerutil documents of its helpers: they change the list of finalizers, and nothing
-- else of the metadata.
pub record FinalizerLaws (env : Env) : Type 0 where
  pub added : (m : ObjectMeta) (f : Str) → env.contains_finalizer (env.add_finalizer m f) f ≡ true
  pub removed :
      (m : ObjectMeta) (f : Str) → env.contains_finalizer (env.remove_finalizer m f) f ≡ false
  pub add_keeps :
      (m : ObjectMeta) (f : Str)
      → env.add_finalizer m f ≡ record m { finalizers = (env.add_finalizer m f).finalizers }
  pub remove_keeps :
      (m : ObjectMeta) (f : Str)
      → env.remove_finalizer m f ≡ record m { finalizers = (env.remove_finalizer m f).finalizers }

-- A computation of the controller reads and extends the trace.
abbrev pub M : Type 0 → Type 0
M A = Trace → A × Trace

infixl 5 ◌>>=◌ ◌>>◌
abbrev pub ◌>>=◌ : {A B : Type 0} → M A → (A → M B) → M B
◌>>=◌ m f t = f (m t).0 (m t).1

abbrev pub ◌>>◌ : {A B : Type 0} → M A → M B → M B
◌>>◌ m k t = k (m t).1

abbrev pub pure : {A : Type 0} → A → M A
pure a t = (a, t)

-- Each call of the environment as an action.
module _ (env : Env) where
  unfoldable pub fetch : ObjectKey → M Fetched
  fetch key t = (env.get_pipeline t key, Call.get_pipeline key ∷ t)

  unfoldable pub read : ObjectKey → M (Result ConfigMap)
  read key t = (env.get_config_map t key, Call.get_config_map key ∷ t)

  unfoldable pub write : AgentPipeline → M (Option Str)
  write p t = let e = env.update t p in (e, Call.update p e ∷ t)

  unfoldable pub write_status : AgentPipeline → M (Option Str)
  write_status p t = let e = env.status_update t p in (e, Call.status_update p e ∷ t)

  unfoldable pub store : ConfigMap → (ConfigMap → ConfigMap) → M (Option Str)
  store cm mutate t =
      let e = env.create_or_update t cm mutate in (e, Call.create_or_update cm mutate e ∷ t)

  unfoldable pub invoke : RunRequest → M (Result RunResult)
  invoke req t = (env.run_agent t req, Call.run_agent req ∷ t)

  unfoldable pub clock : M Time
  clock t = (env.now t, t)

-- Recorder.Event
unfoldable pub record_event : EventType → Str → Str → M (Unit {0})
record_event type reason message t = (tt, Call.event type reason message ∷ t)
