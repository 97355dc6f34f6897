-- ===== src/Hybrid/Settings.antt =====
-- hybrid/server.go, `NewServer`, over that of ws/server.go: which authenticator and which metrics the
-- WebSocket server under a hybrid server gets. The type of the metrics and `stat.NewMetrics` are
-- arguments.
pub mod Handshake
use go_wst.Prelude.{String, str_eq, List, [], ◌∷◌, ◌++◌, Option, none, some, Bool, if◌then◌else◌}
use go_wst.Prelude.Result.{Result}
use go_wst.Protocol.Auth.{Authenticator, no_op_authenticate}
use go_wst.Hybrid.Config.{HybridConf}
use go_wst.Hybrid.Authenticator.{HttpRequest, Token, Claim, authenticate}
use go_wst.Hybrid.Server.{default_authenticator}

-- The two fields of `Server` that the options set; a pointer or an interface that is nil is `none`.
pub record Settings (A M : Type 0) : Type 0 where
  pub authenticator : Option A
  pub metrics : Option M

-- `ServerOption` of both packages.
pub data ServerOption (A M : Type 0) : Type 0 where
  with_metrics : Option M → ServerOption A M
  with_authenticator : Option A → ServerOption A M

abbrev or_else : {B : Type 0} → Option B → B → B
or_else none b = b
or_else (some v) b = v

module _ {A M : Type 0} where
  unfoldable pub apply_option : ServerOption A M → Settings A M → Settings A M
  apply_option (with_metrics m) s = record s { metrics = m }
  apply_option (with_authenticator a) s = record s { authenticator = a }

  -- `for _, opt := range opts { opt(s) }`
  unfoldable pub apply_options : List (ServerOption A M) → Settings A M → Settings A M
  unfolding apply_option
  apply_options [] s = s
  apply_options (o ∷ os) s = apply_options os (apply_option o s)

  abbrev unset : Settings A M
  unset = record { authenticator = none; metrics = none }

  module _ (new_metrics : String → M) where
    -- The part of `NewServer` of ws/server.go that follows the options.
    unfoldable pub ws_settings : A → String → List (ServerOption A M) → A × M
    unfolding apply_options
    ws_settings no_op name opts =
        let s = apply_options opts unset in
        (
          or_else s.authenticator no_op,
          or_else s.metrics (new_metrics (if str_eq name "" then "websocket-server" else name)),
        )

    -- That of `NewServer` of hybrid/server.go, where `default` is the authenticator that the
    -- configuration makes, if any.
    unfoldable pub hybrid_settings :
        Option A → HybridConf → String → List (ServerOption A M) → Option A × M
    unfolding apply_options
    hybrid_settings default conf ws_name opts =
        let s = apply_options opts unset in
        (
          elim s.authenticator [ none ↦ default | some a ↦ some a ],
          or_else s.metrics (new_metrics (if str_eq conf.name "" then ws_name else conf.name)),
        )

  -- `wsOpts`; the metrics are never nil there.
  unfoldable pub ws_opts : Option A → M → List (ServerOption A M)
  ws_opts none m = with_metrics (some m) ∷ []
  ws_opts (some a) m = with_authenticator (some a) ∷ with_metrics (some m) ∷ []

module _ {Float M : Type 0}
    (parse : (Bool → Result String String) → String → Result String (Token Float))
    (format_float : Float → String) (new_metrics : String → M) where
  -- The authenticator that a configuration makes for the hybrid server.
  unfoldable pub configured : HybridConf → Option (Authenticator HttpRequest)
  unfolding default_authenticator authenticate
  configured conf = elim (default_authenticator conf) [
    | none ↦ none
    | some a ↦ some (authenticate parse format_float a)
  ]

  -- What the WebSocket server gets.
  unfoldable pub web_settings :
      HybridConf
      → String
      → List (ServerOption (Authenticator HttpRequest) M)
      → Authenticator HttpRequest × M
  unfolding ws_settings hybrid_settings ws_opts configured no_op_authenticate
  web_settings conf ws_name opts =
      let (authenticator, metrics) =
        hybrid_settings new_metrics (configured conf) conf ws_name opts in
      ws_settings new_metrics no_op_authenticate ws_name (ws_opts authenticator metrics)
