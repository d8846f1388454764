-- ===== src/Server/Start.antt =====
-- services/vault-api/cmd/server/main.go: what main starts; and config/config.go, which it does not use.
use merkle_evidence_vault.Prelude.{
  Option-cases, String, if◌then◌else◌, inl, inr, none, refl, some, ℕ, ◌==◌, ◌↔◌, ◌≡◌, ◌⊎◌,
  string_key,
}
use merkle_evidence_vault.Auth.{Env}
use merkle_evidence_vault.Auth.Startup.{
  StartupError, load_startup_auth_config, validate_auth_startup_config,
}
use merkle_evidence_vault.Auth.Laws.{IsSafeStart, validate_auth_startup_config-IsSafeStart}

-- The server that listens; the timeouts are in seconds.
pub record HttpServer : Type 0 where
  pub addr : String
  pub read_timeout : ℕ
  pub write_timeout : ℕ

abbrev addr_of : String → String
addr_of http_addr = if http_addr == "" then ":8443" else http_addr

abbrev pub configured : Env → HttpServer
configured env = record {
  addr = addr_of (env.getenv "HTTP_ADDR");
  read_timeout = 30;
  write_timeout = 60;
}

-- `main` ends with log.Fatal where the check of the configuration fails, and listens otherwise.
unfoldable pub start_server : Env → StartupError ⊎ HttpServer
unfolding validate_auth_startup_config
start_server env = elim (validate_auth_startup_config env) [
  | some e ↦ inl e
  | none ↦
      inr
        (record { addr = addr_of (env.getenv "HTTP_ADDR"); read_timeout = 30; write_timeout = 60 })
]

-- config.ServerConfig; the timeout is in seconds.
pub record ServerConfig : Type 0 where
  pub http_addr : String
  pub grpc_addr : String
  pub read_timeout : ℕ

-- config.Load, whatever the path.
abbrev pub load : String → ServerConfig
load path = record { http_addr = ":8443"; grpc_addr = ":9443"; read_timeout = 30 }

-- The server listens exactly where its authentication is configured safely.
pub start_server-listens_iff :
    (env : Env)
    → (start_server env ≡ inr (configured env))
      ↔ IsSafeStart
          (load_startup_auth_config env).policy.enable_test_jwt
          (load_startup_auth_config env)
unfolding start_server
start_server-listens_iff env =
    let (to, from) = validate_auth_startup_config-IsSafeStart env in
    elim (Option-cases (validate_auth_startup_config env)) [
      | inl passes ↦ ((λ listens. to passes), (λ safe. rw (start_server, passes) refl))
      | inr (e, fails) ↦
          let ends : start_server env ≡ inl e = rw (start_server, fails) refl in
          ((λ listens. absurd (cc)), (λ safe. let passes = from safe in absurd (cc)))
    ]
