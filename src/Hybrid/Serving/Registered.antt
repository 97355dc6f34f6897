-- ===== src/Hybrid/Serving/Registered.antt =====
-- hybrid/server.go: the map of connections of the hybrid server over all schedules of the handlers
-- of its WebSocket server.
use go_wst.Prelude.{
  ℕ, ◌≡◌, ◌↔◌, ◌⊎◌, refl, String, List, [], ◌∷◌, some, Bool, true, ◌==◌, All, Bool-cases, inl, inr,
}
use go_wst.Registry.{Mirrors, after-Mirrors, Mirrors-iff}
use go_wst.Prelude.Dict.{lookup}
use go_wst.Ws.Server as WsServer
use go_wst.Ws.Handler.{Phase, listed, running}
use mathlib.Core.Bool.{false≢true}
use go_wst.Hybrid.Config.{HybridConf}
use go_wst.Hybrid.Server as HybridServer
use go_wst.Hybrid.Serving.{Stage, unmet, met, refused, left, Input, System, advance, run, start}
use go_wst.Hybrid.Serving.Steps.{
  is_met, view, Names, serves, step-Change, step-Naming_both, step-serves,
}

module _ (ids : ℕ → String) (apart : (c d : ℕ) → ids c ≡ ids d → c ≡ d) where
  -- The map mirrors the stages, and a connection that is met is served.
  record Agrees (y : System) : Type 0 where
    pub mirrors : Mirrors view ids y.both y.place
    pub served : (d : ℕ) → serves (y.place d).1 (y.place d).0 ≡ true

  advance-Agrees :
      (c : ℕ) (i : Input) (y : System) → Names ids (c, i) → Agrees y → Agrees (advance c i y)
  unfolding advance
  advance-Agrees c i y n a = record {
    mirrors =
        after-Mirrors view ids apart c y.both _ y.place _ a.mirrors
          (step-Naming_both ids c i y.both (y.place c).0 (y.place c).1 n)
          (step-Change c i y.both (y.place c).0 (y.place c).1);
    served = λ d. elim (Bool-cases (d == c)) [
      | inl same ↦ rw same (step-serves c i y.both (y.place c).0 (y.place c).1 (a.served c))
      | inr other ↦ rw other (a.served d)
    ];
  }

  run-Agrees :
      (schedule : List (ℕ × Input)) (y : System)
      → All (Names ids) schedule
      → Agrees y
      → Agrees (run schedule y)
  unfolding run
  run-Agrees [] y n a = a
  run-Agrees ((c, i) ∷ rest) y n a =
      run-Agrees rest (advance c i y) n.1 (advance-Agrees c i y n.0 a)

  start-Agrees :
      (s : WsServer.Server) (conf : HybridConf) (wt_created : Bool)
      → Agrees (start s (HybridServer.new_server conf wt_created))
  unfolding HybridServer.new_server lookup
  start-Agrees s conf wt_created = record {
    mirrors = record {
      names = λ d o. absurd (false≢true o);
      sound = λ j d h. absurd (cc);
      complete = λ d h. absurd (false≢true h);
    };
    served = λ d. refl;
  }

  serves_cases :
      (st : Stage) (p : Phase)
      → serves st p ≡ true
      → is_met st ≡ true
      → (st ≡ refused) ⊎ ((st ≡ met) × ((p ≡ listed) ⊎ (p ≡ running)))
  serves_cases met listed h e = inr (refl, inl refl)
  serves_cases met running h e = inr (refl, inr refl)
  serves_cases met _ h e = absurd (cc)
  serves_cases refused p h e = inl refl
  serves_cases unmet p h e = absurd (cc)
  serves_cases left p h e = absurd (cc)

  -- Where no two connections get the same ID, whatever the interleaving of the handlers that the
  -- WebSocket server runs, the map of the hybrid server finds a connection under its ID just when
  -- the user's handler has refused it, or `OnConnect` has registered it and `OnDisconnect` has not
  -- unregistered it, and then its handler is still at work.
  pub run-met_iff :
      (schedule : List (ℕ × Input)) (s : WsServer.Server) (conf : HybridConf) (wt_created : Bool)
      (j : String) (d : ℕ)
      → All (Names ids) schedule
      → let y = run schedule (start s (HybridServer.new_server conf wt_created)) in
        (lookup j y.both.hybrid.connections ≡ some d) ↔ (
          (ids d ≡ j)
          × (((y.place d).1 ≡ refused)
              ⊎ (((y.place d).1 ≡ met) × (((y.place d).0 ≡ listed) ⊎ ((y.place d).0 ≡ running)))))
  run-met_iff schedule s conf wt_created j d n =
      let y = run schedule (start s (HybridServer.new_server conf wt_created)) in
      let a = run-Agrees schedule _ n (start-Agrees s conf wt_created) in
      let (to, from) = Mirrors-iff view ids y.both y.place j d a.mirrors in
      (
        λ h. ((to h).1, serves_cases (y.place d).1 (y.place d).0 (a.served d) (to h).0),
        λ (e, w). from (
          elim w [ inl is_refused ↦ rw is_refused refl | inr (is_served, _) ↦ rw is_served refl ],
          e,
        ),
      )
