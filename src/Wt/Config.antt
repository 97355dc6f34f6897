-- ===== src/Wt/Config.antt =====
-- wt/config.go, and the part of `NewServer` of wt/server.go that uses it: where the certificate and
-- its key come from, and the temporary files that hold those of the environment. The package `os`
-- is an argument, over its state `F`; the bytes of a text that are written are the text.
pub mod Tracking
pub mod Cleanup
use Prim.Native.String.{◌++◌ as text_append}
use go_wst.Prelude.{
  String, str_eq, List, [], ◌∷◌, ◌++◌, Option, none, some, Bool, if◌then◌else◌, ◌||◌, not,
}
use go_wst.Prelude.Result.{Result, ok, err}

-- `os.CreateTemp` returns the name of the file that it opens. `Remove` may fail, which the code
-- does not look at; the error of `Chmod` is left out.
pub record Os (F : Type 0) : Type 0 where
  pub getenv : String → String
  pub create_temp : String → F → F × Result String String
  pub write : String → String → F → F × Option String
  pub close : String → F → F × Option String
  pub chmod : String → F → F
  pub remove : String → F → F × Option String
  pub has_file : String → F → Bool

-- The fields of `WtConf` that concern the certificate.
pub record WtConf : Type 0 where
  pub cert_file : String
  pub key_file : String
  pub cert_env_var : String
  pub key_env_var : String
  pub resolved_cert_file : String
  pub resolved_key_file : String
  pub temp_files : List String

abbrev not_set : String → String
not_set var = text_append (text_append "environment variable " var) " is not set or empty"

module _ {F : Type 0} (os : Os F) where
  -- `writeTempFile` after each call of `os`, with its answer.
  after_close : String → WtConf → F × Option String → (WtConf × F) × Result String String
  after_close name c (f, some e) = ((c, (os.remove name f).0), err e)
  after_close name c (f, none) =
      ((record c { temp_files = c.temp_files ++ name ∷ [] }, os.chmod name f), ok name)

  after_write : String → WtConf → F × Option String → (WtConf × F) × Result String String
  unfolding after_close
  after_write name c (f, some e) = ((c, (os.remove name (os.close name f).0).0), err e)
  after_write name c (f, none) = after_close name c (os.close name f)

  after_create : String → WtConf → F × Result String String → (WtConf × F) × Result String String
  unfolding after_write
  after_create content c (f, err e) = ((c, f), err e)
  after_create content c (f, ok name) = after_write name c (os.write name content f)

  unfoldable pub write_temp_file :
      String → String → WtConf × F → (WtConf × F) × Result String String
  unfolding after_create
  write_temp_file pattern content (c, f) = after_create content c (os.create_temp pattern f)

  after_temp_cert : (WtConf × F) × Result String String → (WtConf × F) × Option String
  after_temp_cert ((c, f), err e) = (
    (c, f),
    some (
        text_append
          (text_append (text_append "failed to write cert from env var " c.cert_env_var) ": ") e),
  )
  after_temp_cert ((c, f), ok name) = ((record c { resolved_cert_file = name }, f), none)

  unfoldable pub resolve_cert_file : WtConf × F → (WtConf × F) × Option String
  unfolding write_temp_file after_temp_cert
  resolve_cert_file (c, f) =
      if not (str_eq c.cert_env_var "")
      then if str_eq (os.getenv c.cert_env_var) ""
        then ((c, f), some (not_set c.cert_env_var))
        else after_temp_cert (write_temp_file "wt-cert-*.pem" (os.getenv c.cert_env_var) (c, f))
      else if not (str_eq c.cert_file "")
      then ((record c { resolved_cert_file = c.cert_file }, f), none)
      else ((c, f), some "TLS certificate not configured: set CertFile or CertEnvVar")

  after_temp_key : (WtConf × F) × Result String String → (WtConf × F) × Option String
  after_temp_key ((c, f), err e) = (
    (c, f),
    some (
        text_append
          (text_append (text_append "failed to write key from env var " c.key_env_var) ": ") e),
  )
  after_temp_key ((c, f), ok name) = ((record c { resolved_key_file = name }, f), none)

  unfoldable pub resolve_key_file : WtConf × F → (WtConf × F) × Option String
  unfolding write_temp_file after_temp_key
  resolve_key_file (c, f) =
      if not (str_eq c.key_env_var "")
      then if str_eq (os.getenv c.key_env_var) ""
        then ((c, f), some (not_set c.key_env_var))
        else after_temp_key (write_temp_file "wt-key-*.pem" (os.getenv c.key_env_var) (c, f))
      else if not (str_eq c.key_file "")
      then ((record c { resolved_key_file = c.key_file }, f), none)
      else ((c, f), some "TLS private key not configured: set KeyFile or KeyEnvVar")

  after_cert : (WtConf × F) × Option String → (WtConf × F) × Option String
  unfolding resolve_key_file
  after_cert (w, some e) = (w, some e)
  after_cert (w, none) = resolve_key_file w

  unfoldable pub set_up : WtConf × F → (WtConf × F) × Option String
  unfolding resolve_cert_file after_cert
  set_up w = after_cert (resolve_cert_file w)

  remove_all : List String → F → F
  remove_all [] f = f
  remove_all (name ∷ names) f = remove_all names (os.remove name f).0

  unfoldable pub cleanup : WtConf × F → WtConf × F
  unfolding remove_all
  cleanup (c, f) = (record c { temp_files = [] }, remove_all c.temp_files f)

  -- `load` is `tls.LoadX509KeyPair`, with its error. The configuration is a copy that is lost when
  -- `NewServer` returns an error.
  module _ (load : String → String → F → Option String) where
    after_load : WtConf × F → Option String → F × Result String WtConf
    after_load (c, f) (some e) = (f, err (text_append "failed to load TLS certificate: " e))
    after_load (c, f) none = (f, ok c)

    after_set_up : (WtConf × F) × Option String → F × Result String WtConf
    unfolding after_load
    after_set_up ((c, f), some e) = (f, err e)
    after_set_up ((c, f), none) =
        if str_eq c.resolved_cert_file "" || str_eq c.resolved_key_file ""
        then (f, err "WebTransport requires TLS certificate and key")
        else after_load (c, f) (load c.resolved_cert_file c.resolved_key_file f)

    unfoldable pub new_server : WtConf × F → F × Result String WtConf
    unfolding set_up after_set_up
    new_server w = after_set_up (set_up w)
