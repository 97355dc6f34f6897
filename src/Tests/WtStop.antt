-- ===== src/Tests/WtStop.antt =====
-- wt/server.go, `Stop`: the theorem at a concrete input.
use go_wst.Prelude.{ℕ, String, str_eq, List, [], ◌∷◌, none, Bool, true, false, ◌||◌, ◌+◌}
use go_wst.Prelude.Int.{pos}
use go_wst.Prelude.Result.{ok}
use go_wst.Wt.Connection.{Connection, new_connection}
use go_wst.Wt.Server
use go_wst.Wt.Server.{Server}
use go_wst.Wt.Handler.{Input, requests, upgrades, authenticates, connects, streams_end, goes}
use go_wst.Wt.Config.{WtConf, new_server}
use go_wst.Tests.Certificates.{empty}
use go_wst.Tests.WebSocket.{letters}

-- Certificate and key come from the environment.
abbrev pub given : WtConf
given = record {
  cert_file = "";
  key_file = "";
  cert_env_var = "CERT";
  key_env_var = "KEY";
  resolved_cert_file = "";
  resolved_key_file = "";
  temp_files = [];
}

abbrev conf : WtConf
conf = record given {
  resolved_cert_file = "wt-cert-*.pem";
  resolved_key_file = "wt-key-*.pem";
  temp_files = "wt-cert-*.pem" ∷ "wt-key-*.pem" ∷ [];
}

abbrev files : String → Bool
files m = str_eq m "wt-key-*.pem" || (str_eq m "wt-cert-*.pem" || empty m)

abbrev fresh : Connection
fresh = new_connection "" (pos 10)

abbrev pub web : Server
web = Server.new_server (pos 5) false (pos 10) (λ _. none) (λ _. fresh)

-- One connection is served when the server stops, and another one is not registered yet.
abbrev before : List (ℕ × Input)
before =
    (0, requests)
    ∷ (0, upgrades true (letters 0))
    ∷ (1, requests)
    ∷ (0, authenticates (ok "u"))
    ∷ (0, goes)
    ∷ (0, goes)
    ∷ (0, goes)
    ∷ (0, connects true)
    ∷ []

abbrev during : List (ℕ × Input)
during = (0, streams_end) ∷ (1, upgrades true (letters 1)) ∷ (0, goes) ∷ []

-- The transport is how often it was closed.
abbrev pub close_transport : ℕ → ℕ
close_transport n = n + 1
