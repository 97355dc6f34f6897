-- ===== src/Hybrid/Life/Laws.antt =====
-- hybrid/server.go: what `Stop` does before and after the servers are started.
use go_wst.Prelude.{ℕ, ◌≡◌, ◌⊎◌, inl, inr, refl, String, Bool, List, [], ◌∷◌, some, true, false}
use go_wst.Prelude.Go.{returns, panics, ◌>>=◌}
use go_wst.Ws.Life as WsLife
use go_wst.Ws.Life.{new_life, shut}
use go_wst.Wt.Handler.{Input}
use go_wst.Wt.Config.{Os}
use go_wst.Wt.Stop as WtStop
use go_wst.Hybrid.Life.{
  Service, web_socket, web_transport, Life, start, ws_starts, stop, stop_once, stop_each, stop_wt,
}

-- A server that `NewServer` has made, over a WebTransport server.
abbrev pub created : {F T : Type 0} → WtStop.Life F T → Life F T
created w = record { ws = new_life; wt = some w; group = []; done = false; once = false }

module _ {F T : Type 0} (os : Os F) (close_transport : T → T) (wait : WtStop.Wait)
    (during : List (ℕ × Input)) (order : List Service → List Service) (none_first : order [] ≡ [])
    (each_once : (order (web_socket ∷ web_transport ∷ []) ≡ web_socket ∷ web_transport ∷ [])
      ⊎ (order (web_socket ∷ web_transport ∷ []) ≡ web_transport ∷ web_socket ∷ []))
    (w w' : WtStop.Life F T)
    (ends : WtStop.stop os close_transport wait during w ≡ returns w') where
  -- Once both servers are at work, with a path that `HandleFunc` takes, `Stop` stops both, in whichever order the group stops its
  -- services. Before `Start` it stops nothing, and no later `Stop` does. Between `Start` and the
  -- start of the WebSocket server it panics.
  pub stop-start :
      (takes : String → Bool) (conf : WsLife.Listening) (binds : Bool)
      → takes conf.path ≡ true
      → ((ws_starts takes conf binds (start (created w))
            >>= stop os close_transport wait during order)
          ≡ returns (record {
            ws = record { servers = shut ∷ []; done = true; once = true };
            wt = some w';
            group = web_socket ∷ web_transport ∷ [];
            done = true;
            once = true;
          }))
        × (stop os close_transport wait during order (created w)
            ≡ returns (record (created w) { done = true; once = true }))
        × (stop os close_transport wait during order (start (created w)) ≡ panics)
  unfolding stop stop_once stop_each stop_wt start ws_starts WsLife.stop WsLife.start
  stop-start takes conf binds taken = (
    elim each_once [
      | inl first ↦ rw (taken, first, ends) refl
      | inr last ↦ rw (taken, last, ends) refl
    ],
    rw none_first refl,
    elim each_once [ inl first ↦ rw first refl | inr last ↦ rw (last, ends) refl ],
  )
