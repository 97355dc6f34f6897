-- ===== src/Tests/Certificates.antt =====
-- wt/config.go: the theorems at concrete inputs.
use go_wst.Prelude.{
  ◌≡◌, some, ◌≢◌, refl, sym, ap, ◌∙◌, String, str_eq, [], Option, none, Bool, true, false,
  if◌then◌else◌, ◌||◌, ◌&&◌, not, Bool-cases, inl, inr,
}
use go_wst.Prelude.Dict.{str_eq_refl}
use go_wst.Prelude.Result.{Result, ok, err}
use go_wst.Wt.Config.{Os, WtConf, new_server}
use go_wst.Wt.Config.Tracking.{IsFiles}
use go_wst.Wt.Config.Cleanup.{new_server_leak}

-- A file system that is the names of its files. A temporary file is named after its pattern, and one
-- that is there already is an error.
abbrev pub os : Os (String → Bool)
os = record {
  getenv = λ var. if str_eq var "CERT" || str_eq var "KEY" then "pem" else "";
  create_temp = λ pattern f.
      if f pattern then (f, err "file exists") else ((λ m. str_eq m pattern || f m), ok pattern);
  write = λ name content f. (f, none);
  close = λ name f. (f, none);
  chmod = λ name f. f;
  remove = λ name f.
      if f name then ((λ m. not (str_eq m name) && f m), none) else (f, some "no such file");
  has_file = λ name f. f name;
}

ok_inv : {a b : String} {y : Result String String} → y ≡ ok a → y ≡ ok b → a ≡ b
ok_inv p q = cc

pub os-IsFiles : IsFiles os
os-IsFiles = record {
  created = λ pattern name f e. elim (Bool-cases (f pattern)) [
    | inl there ↦ absurd (let k : err "file exists" ≡ ok name = rw there at e in cc)
    | inr new ↦
        let same : pattern ≡ name = ok_inv refl (rw new at e) in
        (sym (ap f same) ∙ new, λ m. rw (new, same) refl)
  ];
  not_created = λ pattern e m f h. elim (Bool-cases (f pattern)) [
    | inl there ↦ rw there refl
    | inr new ↦ absurd (let k : ok pattern ≡ err e = rw new at h in cc)
  ];
  written = λ name content m f. refl;
  closed = λ name m f. refl;
  mode_set = λ name m f. refl;
  removed = λ name m f e. elim (Bool-cases (f name)) [
    | inl there ↦ rw there refl
    | inr absent ↦ absurd (let k : some "no such file" ≡ none = rw absent at e in cc)
  ];
  not_removed = λ name x m f h. elim (Bool-cases (f name)) [
    | inl there ↦ absurd (let k : none ≡ some x = rw there at h in cc)
    | inr absent ↦ rw absent refl
  ];
}

-- The certificate comes from the environment, and there is no key.
abbrev conf : WtConf
conf = record {
  cert_file = "";
  key_file = "";
  cert_env_var = "CERT";
  key_env_var = "";
  resolved_cert_file = "";
  resolved_key_file = "";
  temp_files = [];
}

abbrev pub empty : String → Bool
empty m = false

pub differs : (s t : String) → str_eq s t ≡ false → s ≢ t
differs s t e p = let k : true ≡ false = sym (str_eq_refl s) ∙ ap (str_eq s) p ∙ e in absurd (cc)

abbrev pub load : String → String → (String → Bool) → Option String
load cert key f = none

new_server_leak_example :
    (f' : String → Bool) × (e : String) × (new_server os load (conf, empty) ≡ (f', err e))
    × (os.has_file "wt-cert-*.pem" empty ≡ false)
    × (os.has_file "wt-cert-*.pem" f' ≡ true)
new_server_leak_example =
    new_server_leak os os-IsFiles load conf "wt-cert-*.pem" empty
      (λ m. str_eq m "wt-cert-*.pem" || empty m) (λ m. str_eq m "wt-cert-*.pem" || empty m)
      (λ m. str_eq m "wt-cert-*.pem" || empty m) (differs "CERT" "" refl) (differs "pem" "" refl)
      refl refl refl refl refl
