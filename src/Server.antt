-- ===== src/Server.antt =====
-- app/server/server.go: what `Start` sets up and `Shutdown` waits for. The listening is
-- `http.Server`'s, and `tls.LoadX509KeyPair` is the parameter `load_key_pair`.
pub mod Limits
pub mod Certificates
pub mod Serving
use corridor.Prelude.{
  ℕ, ◌*◌, List, [], ◌∷◌, Option, none, some, Bool, true, false, Result, ok, err, ◌>>=◌,
  if◌then◌else◌,
}
use corridor.Prelude.Int.{ℤ, pos, second}
use corridor.Prelude.Text.{Text}
use corridor.Config.{Config, GlobalConfig, TlsConfig, CertificateConfig}
use corridor.Config.Timeouts.{get_default_timeout, seconds_or, or_half_a_minute}

-- The limits of `http.Server`.
pub record Timeouts : Type 0 where
  pub read_timeout : ℤ
  pub write_timeout : ℤ
  pub idle_timeout : ℤ
  pub read_header_timeout : ℤ

unfoldable pub timeouts : GlobalConfig → Timeouts
timeouts g = record {
  read_timeout = seconds_or (pos (30 * second)) g.read_timeout_sec;
  write_timeout = seconds_or (pos (30 * second)) g.write_timeout_sec;
  idle_timeout = seconds_or (pos (60 * second)) g.idle_timeout_sec;
  read_header_timeout = seconds_or (pos (15 * second)) g.read_header_timeout_sec;
}

-- How long `Shutdown` waits for the requests that are served.
unfoldable pub shutdown_timeout : GlobalConfig → ℤ
shutdown_timeout g = or_half_a_minute (get_default_timeout g)

-- The fatal errors before the listening; the second names the host, its files and their error.
pub data FatalError : Type 0 where
  no_tls_certificates : FatalError
  certificate_not_loaded : Text → Text → Text → FatalError

module _ {Cert : Type 0} (load_key_pair : Text → Text → Option Cert) where
  abbrev pub loaded : CertificateConfig → Option Cert → Result FatalError Cert
  loaded conf none = err (certificate_not_loaded conf.hostname conf.cert_file conf.key_file)
  loaded conf (some cert) = ok cert

  -- The loop over the configured certificates.
  unfoldable pub load_certificates : List CertificateConfig → Result FatalError (List Cert)
  load_certificates [] = ok []
  load_certificates (conf ∷ confs) =
      loaded conf (load_key_pair conf.cert_file conf.key_file) >>= λ cert.
      load_certificates confs >>= λ certs. ok (cert ∷ certs)

  abbrev pub load_configured : List CertificateConfig → Result FatalError (List Cert)
  load_configured [] = err no_tls_certificates
  load_configured (conf ∷ confs) = load_certificates (conf ∷ confs)

  abbrev pub tls_of : Option TlsConfig → Result FatalError (List Cert)
  tls_of none = err no_tls_certificates
  tls_of (some tls) = load_configured tls.certificates

  -- The certificates of the server; without HTTPS it listens without them.
  unfoldable pub start_tls : Config → Result FatalError (Option (List Cert))
  start_tls cfg =
      if cfg.global.enable_https then (tls_of cfg.tls >>= λ certs. ok (some certs)) else ok none
