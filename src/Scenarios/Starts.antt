-- ===== src/Scenarios/Starts.antt =====
-- An operator whose setup succeeds and whose manager ends in an error.
use cluster.Prelude.{Str, lit, not, ◌&&◌, none, some, List, [], ◌∷◌, ◌++◌, ◌≡◌, refl, if◌then◌else◌}
use cluster.Runner.Types.{ok}
use cluster.Operator.Scheme.{Scheme, scheme_builder, GroupVersion}
use cluster.Operator.Options.{CommandLine, parse_flags, TlsConfig}
use cluster.Operator.Startup.{manager_options, Host, operator}
use cluster.Operator.Servers.{apply_all, manager_options_lem}
use cluster.Operator.Start.{runs, exits, is_set_up, is_none, operator_lem}

-- Every flag has its default.
abbrev no_flags : CommandLine
no_flags = record { string_var = λ name default. default; bool_var = λ name default. default }

abbrev with_group : GroupVersion → List Str → Scheme
with_group g [] = []
with_group g (k ∷ ks) = record { of_group = g; kind = k } ∷ with_group g ks

abbrev api_kinds : Scheme
api_kinds = with_group scheme_builder.builds scheme_builder.kinds

abbrev ending_host : Host
ending_host = record {
  command_line = no_flags;
  getenv = λ name. [];
  client_go = λ scheme. ok scheme;
  add_to_scheme = λ builder scheme. ok (with_group builder.builds builder.kinds ++ scheme);
  get_config = none;
  new_manager = λ options. none;
  complete = λ registration wiring. none;
  add_healthz_check = λ name. none;
  add_readyz_check = λ name. none;
  start = some (lit "lost the lease");
}

abbrev any_tls : TlsConfig
any_tls = record { next_protos = lit "h2" ∷ []; others = [] }

operator_lem_example :
    let options = manager_options api_kinds (parse_flags ending_host.command_line) in
    (runs (operator ending_host) ≡ is_set_up ending_host options)
    × (exits 1 (operator ending_host)
        ≡ not (is_set_up ending_host options && is_none ending_host.start))
operator_lem_example = operator_lem ending_host [] api_kinds refl refl

manager_options_lem_example :
    let o = manager_options [] (parse_flags no_flags) in
    let expected : TlsConfig =
      if (parse_flags no_flags).enable_http2
      then any_tls
      else record any_tls { next_protos = lit "http/1.1" ∷ [] } in
    (apply_all o.metrics.tls_opts any_tls ≡ expected)
    × (apply_all o.webhook_server.tls_opts any_tls ≡ expected)
    × (o.metrics.secure_serving ≡ o.metrics.filtered)
manager_options_lem_example = manager_options_lem [] (parse_flags no_flags) any_tls
