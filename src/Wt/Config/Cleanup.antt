-- ===== src/Wt/Config/Cleanup.antt =====
-- wt/config.go: what becomes of the temporary files.
use go_wst.Prelude.{
  ap, ◌≡◌, ◌≢◌, refl, ◌∙◌, inl, inr, String, str_eq, Option, none, some, true, false, ◌||◌,
  Bool-cases,
}
use go_wst.Prelude.Dict.{str_eq_refl, str_eq_ne}
use go_wst.Prelude.Result.{Result, ok, err}
use go_wst.Wt.Config.{
  Os, WtConf, write_temp_file, after_create, after_write, after_close, resolve_cert_file,
  after_temp_cert, resolve_key_file, set_up, after_cert, new_server, after_set_up, after_load,
}
use go_wst.Wt.Config.Tracking.{IsFiles}

module _ {F : Type 0} (os : Os F) (files : IsFiles os) where
  -- Where the environment holds the certificate, its file is written without an error, and no key
  -- is configured, `NewServer` fails and leaves the new file with the certificate behind.
  pub new_server_leak :
      (load : String → String → F → Option String) (c : WtConf) (name : String) (f f₁ f₂ f₃ : F)
      → c.cert_env_var ≢ ""
      → os.getenv c.cert_env_var ≢ ""
      → c.key_env_var ≡ ""
      → c.key_file ≡ ""
      → os.create_temp "wt-cert-*.pem" f ≡ (f₁, ok name)
      → os.write name (os.getenv c.cert_env_var) f₁ ≡ (f₂, none)
      → os.close name f₂ ≡ (f₃, none)
      → (f' : F) × (e : String) × (new_server os load (c, f) ≡ (f', err e))
        × (os.has_file name f ≡ false)
        × (os.has_file name f' ≡ true)
  unfolding new_server after_set_up set_up after_cert resolve_cert_file resolve_key_file
      after_temp_cert write_temp_file after_create after_write after_close
  new_server_leak load c name f f₁ f₂ f₃ var set no_var no_file made wrote shut =
      let (new, now) = files.created "wt-cert-*.pem" name f (ap (λ r. r.1) made) in
      (
        os.chmod name f₃,
        "TLS private key not configured: set KeyFile or KeyEnvVar",
        rw
            (
              new_server,
              set_up,
              resolve_cert_file,
              str_eq_ne c.cert_env_var "" var,
              str_eq_ne (os.getenv c.cert_env_var) "" set,
              write_temp_file,
              made,
              wrote,
              shut,
              resolve_key_file,
              no_var,
              no_file,
            )
            refl,
        new,
        files.mode_set name name f₃
            ∙ rw shut at (files.closed name name f₂)
            ∙ rw wrote at (files.written name (os.getenv c.cert_env_var) name f₁)
            ∙ rw made at (now name)
            ∙ rw (str_eq_refl name) refl,
      )

module _ {F : Type 0} (os : Os F) (load : String → String → F → Option String) where
  after_load-ok :
      (w : WtConf × F) (e : Option String) (f : F) (c : WtConf)
      → after_load os load w e ≡ (f, ok c)
      → w ≡ (c, f)
  unfolding after_load
  after_load-ok (c', f') none f c h = cc
  after_load-ok (c', f') (some x) f c h = absurd (cc)

  ok_not_err :
      (f' f : F) (e : String) (c : WtConf)
      → ◌≢◌ {A = F × Result String WtConf} (f', err e) (f, ok c)
  ok_not_err f' f e c h = cc

  after_set_up-ok :
      (r : (WtConf × F) × Option String) (f : F) (c : WtConf)
      → after_set_up os load r ≡ (f, ok c)
      → r.0 ≡ (c, f)
  unfolding after_set_up
  after_set_up-ok ((c', f'), some e) f c h = absurd (cc)
  after_set_up-ok ((c', f'), none) f c h =
      elim (Bool-cases (str_eq c'.resolved_cert_file "" || str_eq c'.resolved_key_file "")) [
        | inl missing ↦ absurd (ok_not_err _ _ _ _ (rw missing at h))
        | inr present ↦ after_load-ok (c', f') _ f c (rw present at h)
      ]

  -- The configuration that `NewServer` keeps is the one that `SetUp` leaves.
  pub new_server-ok :
      (w : WtConf × F) (f : F) (c : WtConf)
      → new_server os load w ≡ (f, ok c)
      → (set_up os w).0 ≡ (c, f)
  unfolding new_server
  new_server-ok w f c h = after_set_up-ok (set_up os w) f c h
