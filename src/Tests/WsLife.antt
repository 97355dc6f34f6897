-- ===== src/Tests/WsLife.antt =====
-- ws/server.go, `Start` and `Stop`: the theorem at a concrete input.
use go_wst.Prelude.{◌≡◌, refl, String, str_eq, Bool, not, [], ◌∷◌, ◌++◌, true, false}
use go_wst.Prelude.Go.{returns, panics}
use go_wst.Ws.Life.{Listening, shut, new_life, starts, stops, run}
use go_wst.Ws.Life.Laws.{starts_of, made, run-new_life}

-- The empty path is not taken.
abbrev pub takes : String → Bool
takes path = not (str_eq path "")

abbrev conf : Listening
conf = record { addr = ":8080"; path = "/ws"; cert_file = "cert.pem"; key_file = "key.pem" }

abbrev no_path : Listening
no_path = record conf { path = "" }

-- The second server does not get the address, which the first one has.
run-new_life_example :
    (run takes no_path (starts false ∷ stops ∷ starts false ∷ []) new_life ≡ panics)
    × (run takes conf (stops ∷ stops ∷ starts false ∷ []) new_life ≡ panics)
    × (run takes conf
          (starts_of (true ∷ []) ++ starts false ∷ stops ∷ stops ∷ starts false ∷ [])
          new_life
        ≡ returns (record {
          servers =
              made conf (stops ∷ starts false ∷ []) (shut ∷ made conf (starts_of (true ∷ [])) []);
          done = true;
          once = true;
        }))
run-new_life_example =
    run-new_life takes conf no_path (true ∷ []) false (stops ∷ starts false ∷ []) new_life refl refl
