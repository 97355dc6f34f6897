-- ===== src/Ws/Life/Laws.antt =====
-- ws/server.go: when `Start` and `Stop` panic, and what they leave.
use go_wst.Prelude.{◌≡◌, refl, ◌∙◌, String, List, [], ◌∷◌, ◌++◌, Bool, true, false}
use go_wst.Prelude.Go.{returns, panics}
use go_wst.Ws.Life.{
  Listening, Http, shut, Life, new_life, listens, start, shutdown, stop_once, stop, Call, starts,
  stops, run,
}

abbrev pub starts_of : List Bool → List Call
starts_of [] = []
starts_of (binds ∷ bs) = starts binds ∷ starts_of bs

-- The servers that the calls make, in front of those that there are: each of them serves if it gets
-- its address.
abbrev pub made : Listening → List Call → List Http → List Http
made conf [] hs = hs
made conf (starts binds ∷ calls) hs = made conf calls (listens conf binds ∷ hs)
made conf (stops ∷ calls) hs = made conf calls hs

module _ (takes : String → Bool) (conf : Listening) (taken : takes conf.path ≡ true) where
  -- Once it is stopped, only `Start` changes something: it makes a server that no `Stop` shuts down.
  run-stopped :
      (calls : List Call) (hs : List Http)
      → run takes conf calls (record { servers = hs; done = true; once = true })
        ≡ returns (record { servers = made conf calls hs; done = true; once = true })
  unfolding run stop start
  run-stopped [] hs = refl
  run-stopped (starts binds ∷ calls) hs =
      rw (taken, run) (run-stopped calls (listens conf binds ∷ hs))
  run-stopped (stops ∷ calls) hs = run-stopped calls hs

  run-starts :
      (before : List Bool) (calls : List Call) (hs : List Http)
      → run takes conf
          (starts_of before ++ calls)
          (record { servers = hs; done = false; once = false })
        ≡ run takes conf calls
            (record { servers = made conf (starts_of before) hs; done = false; once = false })
  unfolding run start
  run-starts [] calls hs = refl
  run-starts (binds ∷ before) calls hs =
      rw (taken, run) (run-starts before calls (listens conf binds ∷ hs))

-- A `Start` with a path that `HandleFunc` does not take panics, and so does a `Stop` before every
-- `Start`. With a path that it takes, a `Stop` after some calls of `Start` closes the channel and shuts
-- the server of the last of them down, and no later call panics; every other server, of an earlier
-- `Start` or a later one, that gets its address goes on serving, and no `Stop` ends that.
pub run-new_life :
    (takes : String → Bool) (conf wrong : Listening) (before : List Bool) (last : Bool)
    (later : List Call) (l : Life)
    → takes conf.path ≡ true
    → takes wrong.path ≡ false
    → (run takes wrong (starts last ∷ later) l ≡ panics)
      × (run takes conf (stops ∷ later) new_life ≡ panics)
      × (run takes conf (starts_of before ++ starts last ∷ stops ∷ later) new_life
          ≡ returns (record {
            servers = made conf later (shut ∷ made conf (starts_of before) []);
            done = true;
            once = true;
          }))
unfolding run start stop stop_once shutdown
run-new_life takes conf wrong before last later l taken refuses = (
  rw refuses refl,
  refl,
  run-starts takes conf taken before (starts last ∷ stops ∷ later) []
      ∙ rw (taken, run)
          (run-stopped takes conf taken later (shut ∷ made conf (starts_of before) [])),
)
