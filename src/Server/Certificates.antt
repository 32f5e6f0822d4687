-- ===== src/Server/Certificates.antt =====
-- The certificates of a server whose configuration was validated.
use corridor.Prelude.{
  ◌≡◌, ◌≢◌, refl, List, [], ◌∷◌, Option, none, some, Bool, true, false, In, Result, ok, err,
  if◌then◌else◌, inl, inr, ◌>>=◌,
}
use corridor.Prelude.Text.{Text}
use corridor.Config.{Config, TlsConfig, CertificateConfig}
use corridor.Config.Validate.{validate_and_set_defaults}
use corridor.Config.Validate.Loops.{IsWellFormed, HasCertificates, validate-IsWellFormed}
use corridor.Server.{
  FatalError, certificate_not_loaded, loaded, load_certificates, load_configured, tls_of, start_tls,
}

module _ {Cert : Type 0} (load_key_pair : Text → Text → Option Cert) where
  -- Each configured certificate is read from its own files, in order.
  abbrev pub Read : List CertificateConfig → List Cert → Type 0
  Read [] [] = Unit
  Read (conf ∷ confs) (cert ∷ certs) =
      (load_key_pair conf.cert_file conf.key_file ≡ some cert) × Read confs certs
  Read _ _ = ⊥

  -- A configured certificate that cannot be read.
  pub record Unreadable (confs : List CertificateConfig) (e : FatalError) : Type 0 where
    pub conf : CertificateConfig
    pub configured : In conf confs
    pub fails : load_key_pair conf.cert_file conf.key_file ≡ none
    pub reported : e ≡ certificate_not_loaded conf.hostname conf.cert_file conf.key_file

  -- What the loop over the certificates does.
  abbrev pub Loaded : List CertificateConfig → Result FatalError (List Cert) → Type 0
  Loaded confs (ok certs) = Read confs certs
  Loaded confs (err e) = Unreadable confs e

  Loaded-cons :
      (conf : CertificateConfig) (confs : List CertificateConfig) (o : Option Cert)
      (rest : Result FatalError (List Cert))
      → load_key_pair conf.cert_file conf.key_file ≡ o
      → Loaded confs rest
      → Loaded
          (conf ∷ confs)
          (loaded load_key_pair conf o >>= λ cert. rest >>= λ certs. ok (cert ∷ certs))
  Loaded-cons conf confs none rest asked l = record {
    conf = conf;
    configured = inl refl;
    fails = asked;
    reported = refl;
  }
  Loaded-cons conf confs (some cert) (ok certs) asked l = (asked, l)
  Loaded-cons conf confs (some cert) (err e) asked l = record {
    conf = l.conf;
    configured = inr l.configured;
    fails = l.fails;
    reported = l.reported;
  }

  load_certificates-Loaded :
      (confs : List CertificateConfig) → Loaded confs (load_certificates load_key_pair confs)
  unfolding load_certificates
  load_certificates-Loaded [] = tt
  load_certificates-Loaded (conf ∷ confs) =
      Loaded-cons conf confs _ _ refl (load_certificates-Loaded confs)

  abbrev pub configured : Option TlsConfig → List CertificateConfig
  configured none = []
  configured (some tls) = tls.certificates

  -- What the set-up of TLS may come to.
  abbrev pub Started : Config → Result FatalError (Option (List Cert)) → Type 0
  Started cfg (ok none) = cfg.global.enable_https ≡ false
  Started cfg (ok (some certs)) =
      (cfg.global.enable_https ≡ true) × (configured cfg.tls ≢ []) × Read (configured cfg.tls) certs
  Started cfg (err e) = (cfg.global.enable_https ≡ true) × Unreadable (configured cfg.tls) e

  load_configured-Loaded :
      (confs : List CertificateConfig)
      → confs ≢ []
      → Loaded confs (load_configured load_key_pair confs)
  load_configured-Loaded [] some_conf = absurd (some_conf refl)
  load_configured-Loaded (conf ∷ confs) some_conf = load_certificates-Loaded (conf ∷ confs)

  Started-Loaded :
      (cfg : Config) (r : Result FatalError (List Cert))
      → cfg.global.enable_https ≡ true
      → configured cfg.tls ≢ []
      → Loaded (configured cfg.tls) r
      → Started cfg (r >>= λ certs. ok (some certs))
  Started-Loaded cfg (ok certs) https some_conf l = (https, some_conf, l)
  Started-Loaded cfg (err e) https some_conf l = (https, l)

  tls_of-Loaded :
      (tls : Option TlsConfig)
      → HasCertificates tls
      → (configured tls ≢ []) × Loaded (configured tls) (tls_of load_key_pair tls)
  tls_of-Loaded none has = elim has [ ]
  tls_of-Loaded (some tls) (some_conf, complete) =
      (some_conf, load_configured-Loaded tls.certificates some_conf)

  start_tls_branch :
      (cfg : Config) (https : Bool)
      → IsWellFormed cfg
      → cfg.global.enable_https ≡ https
      → Started cfg
          (if https then (tls_of load_key_pair cfg.tls >>= λ certs. ok (some certs)) else ok none)
  start_tls_branch cfg false wf e = e
  start_tls_branch cfg true wf e =
      let (some_conf, l) = tls_of-Loaded cfg.tls (wf.certificates e) in
      Started-Loaded cfg _ e some_conf l

  -- With a configuration that was validated the server never meets the fatal error of HTTPS
  -- without certificates: without HTTPS it listens in the clear, and with HTTPS it has at least
  -- one certificate and takes each from its own files, in order, or stops at one that its files do
  -- not give and names it.
  pub start_tls-Started :
      (cfg cfg' : Config)
      → validate_and_set_defaults cfg ≡ ok cfg'
      → Started cfg' (start_tls load_key_pair cfg')
  unfolding start_tls
  start_tls-Started cfg cfg' valid =
      start_tls_branch cfg' cfg'.global.enable_https (validate-IsWellFormed cfg cfg' valid) refl
