-- ===== src/Daemon/Tls.antt =====
-- crates/pmd/src/tls.rs behind the identity, which is Daemon.Startup: the two configurations, and the verifier of
-- certificates. rustls is the interface `Rustls`.
pub mod Pair
use pmd.Prelude.{ℕ, String, ◌≡◌, true, Bool, Option, none, some, List, ◌&&◌}
use pmd.Daemon.Startup.{
  Files, Result, ok, err, tls_failed, ◌>>=◌, Pem, Generation, load_or_generate_identity,
}

-- What a verifier says: `assertion()`, or an error.
pub data Verified : Type 0 where
  assertion refused : Verified

-- `ServerCertVerifier`, over the library's own types.
pub record RustlsTypes : Type 1 where
  pub Certificate : Type 0
  pub ServerName : Type 0
  pub Signature : Type 0
  pub Scheme : Type 0
  -- `ring::default_provider().signature_verification_algorithms.supported_schemes()`
  pub ring_schemes : List Scheme

pub record ServerCertVerifier (L : RustlsTypes) : Type 0 where
  -- the certificate, the intermediates, the name, the OCSP response, and the time
  pub verify_server_cert : L.Certificate → List L.Certificate → L.ServerName → List ℕ → ℕ → Verified
  -- the message, the certificate, and the signature
  pub verify_tls12_signature : List ℕ → L.Certificate → L.Signature → Verified
  pub verify_tls13_signature : List ℕ → L.Certificate → L.Signature → Verified
  pub supported_verify_schemes : List L.Scheme

unfoldable pub no_cert_verifier : (L : RustlsTypes) → ServerCertVerifier L
no_cert_verifier L = record {
  verify_server_cert = λ _ _ _ _ _. assertion;
  verify_tls12_signature = λ _ _ _. assertion;
  verify_tls13_signature = λ _ _ _. assertion;
  supported_verify_schemes = L.ring_schemes;
}

-- The two builders. A step that can fail gives none.
pub record Rustls (L : RustlsTypes) (X : Pem) : Type 1 where
  pub ServerConfig : Type 0
  pub ClientConfig : Type 0
  -- `ServerConfig::builder()`, before and behind the choice of the clients' authentication
  pub WantsVerifier : Type 0
  pub WantsServerCert : Type 0
  pub server_builder : WantsVerifier
  pub with_no_client_auth : WantsVerifier → WantsServerCert
  pub with_single_cert : WantsServerCert → X.Certs → X.Key → Option ServerConfig
  -- `ClientConfig::builder().dangerous()`, before and behind the verifier
  pub DangerousBuilder : Type 0
  pub WantsClientCert : Type 0
  pub dangerous : DangerousBuilder
  pub with_custom_certificate_verifier : DangerousBuilder → ServerCertVerifier L → WantsClientCert
  pub with_client_auth_cert : WantsClientCert → X.Certs → X.Key → Option ClientConfig

module _ (L : RustlsTypes) (X : Pem) (R : Rustls L X) where
  open R use {
    ServerConfig, ClientConfig, server_builder, with_no_client_auth, with_single_cert, dangerous,
    with_custom_certificate_verifier, with_client_auth_cert,
  }

  abbrev pub context {ℓ} : {A : Type ℓ} → Option A → Result A
  context none = err tls_failed
  context (some a) = ok a

  -- The files afterwards, and the configuration.
  unfoldable pub build_server_config : Generation → Files → Files × Result ServerConfig
  unfolding load_or_generate_identity
  build_server_config g files =
      let (files', identity) = load_or_generate_identity X g files in
      (
        files',
        identity >>= (λ i. context (with_single_cert (with_no_client_auth server_builder) i.0 i.1)),
      )

  unfoldable pub build_acceptor : Generation → Files → Files × Result ServerConfig
  unfolding build_server_config
  build_acceptor g files = build_server_config g files

  unfoldable pub build_connector : Generation → Files → Files × Result ClientConfig
  unfolding load_or_generate_identity no_cert_verifier
  build_connector g files =
      let (files', identity) = load_or_generate_identity X g files in
      (
        files',
        identity >>= (λ i. context (
            with_client_auth_cert (with_custom_certificate_verifier dangerous (no_cert_verifier L))
              i.0 i.1)),
      )
