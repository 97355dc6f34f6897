-- ===== src/Hybrid/Settings/Handshake.antt =====
-- hybrid/server.go over ws/server.go: which authenticator the WebSocket server asks, and what it does
-- with the answer.
use go_wst.Prelude.{
  ◌≡◌, ◌≢◌, ◌↔◌, ◌⊎◌, inl, inr, refl, ap, ◌∙◌, ℕ, String, str_eq, List, [], ◌∷◌, Option, none, some,
  Bool, true, false, if◌then◌else◌, ◌&&◌, not, Bool-cases,
}
use go_wst.Prelude.Result.{Result, ok, err}
use go_wst.Protocol.Auth.{AuthRequest, Authenticator, no_op_authenticate, protocol_web_socket}
use go_wst.Hybrid.Config.{HybridConf}
use go_wst.Hybrid.Authenticator.{
  HybridAuthenticator, HttpRequest, Token, authenticate, authenticate_header, missing_user_info,
}
use go_wst.Hybrid.Server.{default_authenticator}
use go_wst.Hybrid.Settings.{
  Settings, ServerOption, with_metrics, with_authenticator, apply_option, apply_options, unset,
  or_else, ws_settings, hybrid_settings, ws_opts, configured, web_settings,
}
use go_wst.Ws.Server.{Server, user_of}
use go_wst.Ws.Handler.Authentication.{authenticated-name}
use go_wst.Ws.Handler.{Phase, counted, allowed, authenticates, step}

-- The authenticator of the last option that gives one or takes it away; `before` if none does.
abbrev last_given : {A M : Type 0} → List (ServerOption A M) → Option A → Option A
last_given [] before = before
last_given (with_metrics m ∷ os) before = last_given os before
last_given (with_authenticator a ∷ os) before = last_given os a

module _ {A M : Type 0} where
  apply_options-authenticator :
      (os : List (ServerOption A M)) (s : Settings A M)
      → (apply_options os s).authenticator ≡ last_given os s.authenticator
  unfolding apply_options apply_option
  apply_options-authenticator [] s = refl
  apply_options-authenticator (with_metrics m ∷ os) s = apply_options-authenticator os _
  apply_options-authenticator (with_authenticator a ∷ os) s = apply_options-authenticator os _

-- The authenticator for the headers and tokens that the configuration names.
abbrev configured_as : HybridConf → HybridAuthenticator
configured_as conf = record {
  ws_config = record { source = "envoy-header"; header_name = conf.auth.ws_header_name };
  wt_config = record {
    token_source = conf.auth.wt_token_source;
    token_name = conf.auth.wt_token_name;
    jwt_secret = conf.auth.wt_jwt_secret;
  };
}

module _ {Float M : Type 0}
    (parse : (Bool → Result String String) → String → Result String (Token Float))
    (format_float : Float → String) (new_metrics : String → M) (conf : HybridConf)
    (ws_name : String) (opts : List (ServerOption (Authenticator HttpRequest) M)) where
  abbrev own_or :
      Option (Authenticator HttpRequest)
      → Option (Authenticator HttpRequest)
      → Authenticator HttpRequest
  own_or o default = elim o [ some a ↦ a | none ↦ or_else default no_op_authenticate ]

  web_settings_chain :
      (o default : Option (Authenticator HttpRequest)) (m : M)
      → (ws_settings new_metrics no_op_authenticate ws_name
          (ws_opts (elim o [ none ↦ default | some a ↦ some a ]) m)).0
        ≡ own_or o default
  unfolding ws_settings ws_opts apply_options apply_option
  web_settings_chain (some a) default m = refl
  web_settings_chain none (some a) m = refl
  web_settings_chain none none m = refl

  configured_chain :
      (o : Option (Authenticator HttpRequest))
      → own_or o (configured parse format_float new_metrics conf) ≡ elim o [
        | some a ↦ a
        | none ↦
            if conf.auth.enabled
            then authenticate parse format_float (configured_as conf)
            else no_op_authenticate
      ]
  unfolding configured default_authenticator
  configured_chain (some a) = refl
  configured_chain none = elim (Bool-cases conf.auth.enabled) [
    | inl on ↦ rw on refl
    | inr off ↦ rw off refl
  ]

  -- The WebSocket server under a hybrid server asks the authenticator of the last option that gives
  -- one; without one, that of the configuration, if authentication is enabled there, and else the
  -- authenticator that lets everyone in as nobody.
  web_settings_lem :
      (web_settings parse format_float new_metrics conf ws_name opts).0
      ≡ elim (last_given opts none) [
        | some a ↦ a
        | none ↦
            if conf.auth.enabled
            then authenticate parse format_float (configured_as conf)
            else no_op_authenticate
      ]
  unfolding web_settings hybrid_settings ws_settings ws_opts apply_options apply_option configured
      default_authenticator
  web_settings_lem =
      web_settings_chain (apply_options opts unset).authenticator
        (configured parse format_float new_metrics conf) _
      ∙ ap (λ o. own_or o (configured parse format_float new_metrics conf))
          (apply_options-authenticator opts unset)
      ∙ configured_chain (last_given opts none)

  -- Below, no option gives an authenticator, and a request of the WebSocket server comes in for the
  -- connection `c`.
  module _ (r : HttpRequest) (without : last_given opts none ≡ none)
      (enabled : conf.auth.enabled ≡ true) where
    abbrev request : AuthRequest HttpRequest
    request = record { protocol = protocol_web_socket; http_request = some r }

    abbrev name_in_header : String
    name_in_header = r.header conf.auth.ws_header_name

    answer_lem :
        (web_settings parse format_float new_metrics conf ws_name opts).0 request
        ≡ (if str_eq name_in_header "" then err missing_user_info else ok name_in_header)
    unfolding authenticate authenticate_header
    answer_lem = rw (web_settings_lem, without, enabled) refl

    -- What the handler does with it.
    abbrev pub handled : ℕ → Server → Server × Phase
    handled c s =
        step c
          (authenticates
            ((web_settings parse format_float new_metrics conf ws_name opts).0 request))
          s counted

    -- Where the hybrid configuration enables authentication and no option gives an authenticator, a
    -- request gets past the authentication of the WebSocket server just when it has the configured
    -- header, or when the WebSocket server's own configuration leaves authentication off: then it
    -- gets past as nobody, whatever the header says. Where it has the header and authentication is
    -- on in both, its connection gets the user in it.
    pub step-web_settings :
        (c : ℕ) (s : Server)
        → (((handled c s).1 ≡ allowed) ↔ ((s.auth_enabled ≡ false) ⊎ (name_in_header ≢ "")))
          × (user_of (handled c s).0 c ≡ (
              if s.auth_enabled && not (str_eq name_in_header "")
              then name_in_header
              else user_of s c))
    unfolding step
    step-web_settings c s =
        rw answer_lem (authenticated-name s.auth_enabled name_in_header missing_user_info c s)
