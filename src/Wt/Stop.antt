-- ===== src/Wt/Stop.antt =====
-- wt/server.go, `Stop`: with the handlers that are at work before it and while it waits for them.
-- The operating system and `Close` of the WebTransport library, on its state `T`, are arguments.
pub mod Closing
pub mod Laws
use go_wst.Prelude.{ℕ, List, [], ◌∷◌, Option, Bool, true, false, if◌then◌else◌, String}
use go_wst.Prelude.Go.{Go, returns, panics, ◌>>=◌, close_channel}
use go_wst.Prelude.Dict.{values}
use go_wst.Wt.Connection.{Connection, close}
use go_wst.Wt.Server.{Server, write_conn}
use go_wst.Wt.Handler.{Input, System, run, start}
use go_wst.Wt.Config.{Os, WtConf, cleanup}

-- The server with its handlers, its copy of the configuration, the files, the transport, whether
-- the channel `done` is closed, and whether `once` has run.
pub record Life (F T : Type 0) : Type 0 where
  pub system : System
  pub conf : WtConf
  pub files : F
  pub transport : T
  pub done : Bool
  pub once : Bool

-- A server after `NewServer` that has run the schedule.
abbrev pub serving : {F T : Type 0} → List (ℕ × Input) → Server → WtConf → F → T → Life F T
serving before s conf files transport = record {
  system = run before (start s);
  conf = conf;
  files = files;
  transport = transport;
  done = false;
  once = false;
}

-- How the wait for the goroutines ends: they do, five seconds pass, or the `WaitGroup` panics, which it
-- may do where a handler calls its `Add` while `Stop` waits.
pub data Wait : Type 0 where
  all_ended : Wait
  out_of_time : Wait
  misused : Wait

unfoldable pub wait_for : {A : Type 0} → Wait → A → Go A
wait_for all_ended a = returns a
wait_for out_of_time a = returns a
wait_for misused a = panics

-- The loop over the connections, under their lock.
unfoldable pub close_each : List ℕ → Server → Go Server
close_each [] s = returns s
close_each (c ∷ cs) s = do
  (v, _) ← close (s.session_error c) (s.conns c)
  close_each cs (write_conn c v s)

-- The server whose connections are closed.
abbrev pub with_server : Server → System → System
with_server s y = record y { server = s }

module _ {F T : Type 0} (os : Os F) (close_transport : T → T) where
  -- What follows the wait.
  finish : System → Life F T → Life F T
  unfolding cleanup
  finish y l =
      let (conf, files) = cleanup os (l.conf, l.files) in
      record {
        system = y;
        conf = conf;
        files = files;
        transport = close_transport l.transport;
        done = true;
        once = true;
      }

  -- The function that `once` runs, after `close(s.done)`.
  stop_once : Wait → List (ℕ × Input) → Life F T → Go Bool → Go (Life F T)
  unfolding close_each finish wait_for
  stop_once wait during l panics = panics
  stop_once wait during l (returns d) = do
    s ← close_each (values l.system.server.connections) l.system.server
    wait_for wait (finish (run during (with_server s l.system)) l)

  -- `during` is what the handlers do while `Stop` waits for them, up to five seconds.
  unfoldable pub stop : Wait → List (ℕ × Input) → Life F T → Go (Life F T)
  unfolding close_channel stop_once
  stop wait during l = if l.once then returns l else stop_once wait during l (close_channel l.done)
