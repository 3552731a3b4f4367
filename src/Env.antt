-- ===== src/Env.antt =====
-- env.rs: the data that all threads share, made once, and each thread's copy of it.
pub mod Shared
mod Examples
use xx_url.Common.{
  ℕ, ◌+◌, ◌==◌, Bool, Option, none, some, if◌then◌else◌, Result, ok, err, panic, stuck, M, ◌>>=◌,
  ◌>>◌, pure, get, put, lift,
}

-- `GlobalData` and `ThreadLocalData` have the same two fields: shared values, told apart by
-- identity.
pub record Data (R C : Type 0) : Type 0 where
  pub dns_resolver : R
  pub tls_client_config : C

-- What the source takes from elsewhere: `join(load_system_certs(), Resolver::new())`, and the
-- client configuration that rustls builds of the certificates.
pub record EnvLib (W Certs R C : Type 0) : Type 0 where
  pub join : M W (Result Certs × Result R)
  pub client_config : Certs → M W C

-- `GLOBAL_DATA`, whose lock is held by one call at a time, and `THREAD_LOCAL_DATA` by thread.
pub record Env (W R C : Type 0) : Type 0 where
  pub world : W
  pub global : Option (Data R C)
  pub local : ℕ → Option (Data R C)
  -- how often `create_global_data` has succeeded
  pub created : ℕ

-- `expect`
abbrev pub expect : {A : Type 0} → Result A → Result A
expect (ok a) = ok a
expect (err _) = panic
expect panic = panic
expect stuck = stuck

module _ {W Certs R C : Type 0} (lib : EnvLib W Certs R C) where
  unfoldable pub create_global_data : M W (Data R C)
  create_global_data = do
    outcome ← lib.join
    certs ← lift (expect outcome.0)
    resolver ← lift (expect outcome.1)
    config ← lib.client_config certs
    pure (record { dns_resolver = resolver; tls_client_config = config })

  abbrev pub insert : Env W R C → Result (Data R C) × W → Result (Data R C) × Env W R C
  insert s (ok config, w) =
      (ok config, record s { world = w; global = some config; created = s.created + 1 })
  insert s (err e, w) = (err e, record s { world = w })
  insert s (panic, w) = (panic, record s { world = w })
  insert s (stuck, w) = (stuck, record s { world = w })

  unfoldable pub get_global_data : M (Env W R C) (Data R C)
  unfolding create_global_data
  get_global_data s = elim s.global [
    | some config ↦ (ok config, s)
    | none ↦ insert s (create_global_data s.world)
  ]

  unfoldable pub create_thread_local_data : M (Env W R C) (Data R C)
  create_thread_local_data = do
    shared ← get_global_data
    pure (record {
      dns_resolver = shared.dns_resolver;
      tls_client_config = shared.tls_client_config;
    })

  -- `OnceCell::set`, whose failure is ignored: a copy that is there stays.
  unfoldable pub set_local : ℕ → Data R C → Env W R C → Env W R C
  set_local thread shared s = elim (s.local thread) [
    | some _ ↦ s
    | none ↦ record s { local = λ t. if t == thread then some shared else s.local t }
  ]

  unfoldable pub get_data : ℕ → M (Env W R C) (Data R C)
  unfolding set_local create_thread_local_data
  get_data thread s = elim (s.local thread) [
    | some shared ↦ (ok shared, s)
    | none ↦ (do shared ← create_thread_local_data; (λ t. (ok shared, set_local thread shared t))) s
  ]

  unfoldable pub get_tls_client_config : ℕ → M (Env W R C) C
  get_tls_client_config thread = do shared ← get_data thread; pure shared.tls_client_config

  unfoldable pub get_resolver : ℕ → M (Env W R C) R
  get_resolver thread = do shared ← get_data thread; pure shared.dns_resolver

  unfoldable pub free_data : Env W R C → Env W R C
  free_data s = record s { global = none }
