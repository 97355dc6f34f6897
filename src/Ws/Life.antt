-- ===== src/Ws/Life.antt =====
-- ws/server.go, `Start` and `Stop`: the HTTP servers that one of them makes and the other shuts down.
-- Serving itself is the HTTP library's; which paths `HandleFunc` takes is an argument, and whether a
-- server gets its address an input.
pub mod Laws
use go_wst.Prelude.{String, str_eq, List, [], ◌∷◌, Bool, true, false, if◌then◌else◌, ◌&&◌, not}
use go_wst.Prelude.Go.{Go, returns, panics, ◌>>=◌, close_channel}

-- The fields of `WsConf` that `Start` reads.
pub record Listening : Type 0 where
  pub addr : String
  pub path : String
  pub cert_file : String
  pub key_file : String

-- What becomes of an `http.Server`: it serves its address with or without TLS, it does not get its
-- address, or is shut down.
pub data Http : Type 0 where
  serving : Bool → Http
  refused : Http
  shut : Http

-- The HTTP servers that were made, the newest first, which is the one that the field `server` of
-- `Server` names; it is nil where there is none. With them whether `done` is closed, and whether
-- `once` has run.
pub record Life : Type 0 where
  pub servers : List Http
  pub done : Bool
  pub once : Bool

abbrev pub new_life : Life
new_life = record { servers = []; done = false; once = false }

unfoldable pub with_tls : Listening → Bool
with_tls conf = not (str_eq conf.cert_file "") && not (str_eq conf.key_file "")

-- What becomes of a new server; `binds` is whether it gets its address.
abbrev pub listens : Listening → Bool → Http
listens conf binds = if binds then serving (with_tls conf) else refused

-- `HandleFunc` panics over a path that it does not take. The new server takes the place of the one of
-- an earlier `Start`, which goes on as it was.
unfoldable pub start : (String → Bool) → Listening → Bool → Life → Go Life
start takes conf binds l =
    if takes conf.path
    then returns (record l { servers = listens conf binds ∷ l.servers })
    else panics

-- `s.server.Shutdown(ctx)`, where `s.server` may be nil.
shutdown : List Http → Go (List Http)
shutdown [] = panics
shutdown (newest ∷ others) = returns (shut ∷ others)

-- The function that `once` runs.
stop_once : Life → Go Bool → Go Life
unfolding shutdown
stop_once l panics = panics
stop_once l (returns d) = do
  servers ← shutdown l.servers
  returns (record { servers = servers; done = d; once = true })

unfoldable pub stop : Life → Go Life
unfolding close_channel stop_once
stop l = if l.once then returns l else stop_once l (close_channel l.done)

-- Calls of the two methods in the order in which they take effect.
pub data Call : Type 0 where
  starts : Bool → Call
  stops : Call

unfoldable pub run : (String → Bool) → Listening → List Call → Life → Go Life
unfolding start stop
run takes conf [] l = returns l
run takes conf (starts binds ∷ calls) l = do l' ← start takes conf binds l; run takes conf calls l'
run takes conf (stops ∷ calls) l = do l' ← stop l; run takes conf calls l'
