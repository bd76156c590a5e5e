-- ===== src/Operator/Servers.antt =====
-- The TLS options of the operator's servers.
use cluster.Prelude.{
  lit, List, [], ◌∷◌, ◌≡◌, refl, ◌∙◌, ap, inl, inr, arith, Bool-cases, if◌then◌else◌,
}
use cluster.Operator.Options.{
  TlsConfig, TlsOption, Flags, tls_options, disable_http2, webhook_options, metrics_options,
}
use cluster.Operator.Scheme.{Scheme}
use cluster.Operator.Startup.{manager_options}

-- A configuration behind all options, in order.
abbrev pub apply_all : List TlsOption → TlsConfig → TlsConfig
apply_all [] c = c
apply_all (f ∷ fs) c = apply_all fs (f c)

metrics_options-tls_options : (flags : Flags) → (metrics_options flags).tls_opts ≡ tls_options flags
unfolding metrics_options
metrics_options-tls_options flags = ground arith

webhook_options-tls_options : (flags : Flags) → (webhook_options flags).tls_opts ≡ tls_options flags
unfolding webhook_options
webhook_options-tls_options flags = ground arith

apply_all-tls_options :
    (flags : Flags) (c : TlsConfig)
    → apply_all (tls_options flags) c
      ≡ (if flags.enable_http2 then c else record c { next_protos = lit "http/1.1" ∷ [] })
unfolding tls_options disable_http2
apply_all-tls_options flags c = elim (Bool-cases flags.enable_http2) [
  | inl on ↦ rw (on, tls_options) refl
  | inr off ↦ rw (off, tls_options) refl
]

-- Without --enable-http2 the options of both servers leave HTTP/1.1 as the only protocol, and with
-- it they change nothing; they touch nothing else, whatever the certificates are. The metrics are
-- served securely exactly where requests to them are filtered by authentication and authorization.
pub manager_options_lem :
    (scheme : Scheme) (flags : Flags) (c : TlsConfig)
    → let o = manager_options scheme flags in
      let expected : TlsConfig =
        if flags.enable_http2 then c else record c { next_protos = lit "http/1.1" ∷ [] } in
      (apply_all o.metrics.tls_opts c ≡ expected)
      × (apply_all o.webhook_server.tls_opts c ≡ expected)
      × (o.metrics.secure_serving ≡ o.metrics.filtered)
unfolding manager_options metrics_options
manager_options_lem scheme flags c = (
  ap (λ fs. apply_all fs c) (metrics_options-tls_options flags) ∙ apply_all-tls_options flags c,
  ap (λ fs. apply_all fs c) (webhook_options-tls_options flags) ∙ apply_all-tls_options flags c,
  ground arith,
)
