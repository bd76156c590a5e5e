-- ===== src/Operator/Startup.antt =====
-- The start of the operator: `init` and `main` of agentpipeline-operator/cmd/main.go, and
-- `SetupWithManager` of agentpipeline-operator/internal/controller/agentpipeline_controller.go.
-- What controller-runtime and the operating system answer is the record `Host`; a run is the list of
-- the calls made, in order. The zap options, the loggers and the signal handler are left out.
use cluster.Prelude.{Str, lit, ℕ, Bool, Option, none, some, List, [], ◌∷◌}
use cluster.Runner.Types.{Result, ok, err}
use cluster.Runner.A2a.{A2aRunner, new_a2a_runner}
use cluster.Operator.Scheme.{Scheme, SchemeBuilder, scheme_builder}
use cluster.Operator.Options.{
  CommandLine, Flags, parse_flags, WebhookOptions, webhook_options, MetricsOptions, metrics_options,
}

-- ctrl.Options
pub record ManagerOptions : Type 0 where
  pub scheme : Scheme
  pub metrics : MetricsOptions
  pub webhook_server : WebhookOptions
  pub health_probe_bind_address : Str
  pub leader_election : Bool
  pub leader_election_id : Str

-- The fields of `AgentPipelineReconciler` that do not come from the manager.
pub record Wiring : Type 0 where
  pub recorder : Str
  pub runner : A2aRunner

-- What the builder of `SetupWithManager` is told.
pub record Registration : Type 0 where
  pub for_kind : Str
  pub owned_kinds : List Str
  pub name : Str

pub record Host : Type 0 where
  pub command_line : CommandLine
  pub getenv : Str → Str
  -- clientgoscheme.AddToScheme, and AddToScheme of a builder
  pub client_go : Scheme → Result Scheme
  pub add_to_scheme : SchemeBuilder → Scheme → Result Scheme
  -- the errors, if any, of GetConfig, NewManager, Complete, AddHealthzCheck, AddReadyzCheck, Start
  pub get_config : Option Str
  pub new_manager : ManagerOptions → Option Str
  pub complete : Registration → Wiring → Option Str
  pub add_healthz_check : Str → Option Str
  pub add_readyz_check : Str → Option Str
  pub start : Option Str

-- `exit` is os.Exit, `panicked` the panic of utilruntime.Must.
pub data Act : Type 0 where
  create_manager : ManagerOptions → Act
  register : Registration → Wiring → Act
  healthz : Str → Act
  readyz : Str → Act
  run : Act
  exit : ℕ → Act
  panicked : Str → Act

-- `if err != nil { os.Exit(1) }`, and behind it the rest.
unfoldable pub or_exit : Option Str → List Act → List Act
or_exit none rest = rest
or_exit (some e) rest = exit 1 ∷ []

-- `utilruntime.Must`
unfoldable pub must : Result Scheme → (Scheme → List Act) → List Act
must (ok scheme) rest = rest scheme
must (err e) rest = panicked e ∷ []

abbrev pub registration : Registration
registration = record {
  for_kind = lit "AgentPipeline";
  owned_kinds = lit "ConfigMap" ∷ [];
  name = lit "agentpipeline";
}

unfoldable pub manager_options : Scheme → Flags → ManagerOptions
unfolding metrics_options webhook_options
manager_options scheme flags = record {
  scheme = scheme;
  metrics = metrics_options flags;
  webhook_server = webhook_options flags;
  health_probe_bind_address = flags.probe_addr;
  leader_election = flags.enable_leader_election;
  leader_election_id = lit "7791af13.cluster69.io";
}

module _ (host : Host) where
  unfoldable pub wiring : Wiring
  wiring = record {
    recorder = lit "agentpipeline-controller";
    runner =
        new_a2a_runner (host.getenv (lit "KAGENT_A2A_URL")) (host.getenv (lit "KAGENT_USER_ID"));
  }

  -- Behind the creation of the manager.
  unfoldable pub serve : List Act
  unfolding wiring or_exit
  serve =
      register registration wiring
      ∷ or_exit (host.complete registration wiring) (
          healthz (lit "healthz")
          ∷ or_exit (host.add_healthz_check (lit "healthz")) (
              readyz (lit "readyz")
              ∷ or_exit (host.add_readyz_check (lit "readyz")) (run ∷ or_exit host.start [])))

  unfoldable pub main : Scheme → List Act
  unfolding parse_flags manager_options serve or_exit
  main scheme =
      let options = manager_options scheme (parse_flags host.command_line) in
      or_exit host.get_config (create_manager options ∷ or_exit (host.new_manager options) serve)

  -- `init`, then `main`.
  unfoldable pub operator : List Act
  unfolding must main
  operator =
      must (host.client_go []) (λ scheme. must (host.add_to_scheme scheme_builder scheme) main)
