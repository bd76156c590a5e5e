-- ===== src/Operator/Options.antt =====
-- The flags and the options of the servers and of the manager in
-- agentpipeline-operator/cmd/main.go.
use cluster.Prelude.{Str, lit, is_empty, Bool, true, false, not, List, [], ◌∷◌, if◌then◌else◌}

-- tls.Config: the field that the code sets, and all others as one value.
pub record TlsConfig : Type 0 where
  pub next_protos : List Str
  pub others : Str

abbrev pub TlsOption : Type 0
TlsOption = TlsConfig → TlsConfig

-- The variables of the flags.
pub record Flags : Type 0 where
  pub metrics_addr : Str
  pub probe_addr : Str
  pub enable_leader_election : Bool
  pub secure_metrics : Bool
  pub webhook_cert_path : Str
  pub webhook_cert_name : Str
  pub webhook_cert_key : Str
  pub metrics_cert_path : Str
  pub metrics_cert_name : Str
  pub metrics_cert_key : Str
  pub enable_http2 : Bool

-- What flag.Parse leaves in the variable of a flag with that name and that default.
pub record CommandLine : Type 0 where
  pub string_var : Str → Str → Str
  pub bool_var : Str → Bool → Bool

unfoldable pub parse_flags : CommandLine → Flags
parse_flags c = record {
  metrics_addr = c.string_var (lit "metrics-bind-address") (lit "0");
  probe_addr = c.string_var (lit "health-probe-bind-address") (lit ":8081");
  enable_leader_election = c.bool_var (lit "leader-elect") false;
  secure_metrics = c.bool_var (lit "metrics-secure") true;
  webhook_cert_path = c.string_var (lit "webhook-cert-path") [];
  webhook_cert_name = c.string_var (lit "webhook-cert-name") (lit "tls.crt");
  webhook_cert_key = c.string_var (lit "webhook-cert-key") (lit "tls.key");
  metrics_cert_path = c.string_var (lit "metrics-cert-path") [];
  metrics_cert_name = c.string_var (lit "metrics-cert-name") (lit "tls.crt");
  metrics_cert_key = c.string_var (lit "metrics-cert-key") (lit "tls.key");
  enable_http2 = c.bool_var (lit "enable-http2") false;
}

unfoldable pub disable_http2 : TlsOption
disable_http2 c = record c { next_protos = lit "http/1.1" ∷ [] }

unfoldable pub tls_options : Flags → List TlsOption
tls_options flags = if not flags.enable_http2 then disable_http2 ∷ [] else []

-- webhook.Options
pub record WebhookOptions : Type 0 where
  pub tls_opts : List TlsOption
  pub cert_dir : Str
  pub cert_name : Str
  pub key_name : Str

unfoldable pub webhook_options : Flags → WebhookOptions
unfolding tls_options
webhook_options flags =
    let initial : WebhookOptions = record {
      tls_opts = tls_options flags;
      cert_dir = [];
      cert_name = [];
      key_name = [];
    } in
    if is_empty flags.webhook_cert_path then initial else record initial {
      cert_dir = flags.webhook_cert_path;
      cert_name = flags.webhook_cert_name;
      key_name = flags.webhook_cert_key;
    }

-- metricsserver.Options; `filtered` says that FilterProvider is
-- `filters.WithAuthenticationAndAuthorization`, and not nil.
pub record MetricsOptions : Type 0 where
  pub bind_address : Str
  pub secure_serving : Bool
  pub filtered : Bool
  pub tls_opts : List TlsOption
  pub cert_dir : Str
  pub cert_name : Str
  pub key_name : Str

unfoldable pub initial_metrics_options : Flags → MetricsOptions
unfolding tls_options
initial_metrics_options flags = record {
  bind_address = flags.metrics_addr;
  secure_serving = flags.secure_metrics;
  filtered = false;
  tls_opts = tls_options flags;
  cert_dir = [];
  cert_name = [];
  key_name = [];
}

unfoldable pub with_filter : Flags → MetricsOptions → MetricsOptions
with_filter flags o = if flags.secure_metrics then record o { filtered = true } else o

unfoldable pub with_metrics_certs : Flags → MetricsOptions → MetricsOptions
with_metrics_certs flags o = if is_empty flags.metrics_cert_path then o else record o {
  cert_dir = flags.metrics_cert_path;
  cert_name = flags.metrics_cert_name;
  key_name = flags.metrics_cert_key;
}

unfoldable pub metrics_options : Flags → MetricsOptions
unfolding initial_metrics_options with_filter with_metrics_certs
metrics_options flags = with_metrics_certs flags (with_filter flags (initial_metrics_options flags))
