-- ===== src/Hybrid/Serving/Steps.antt =====
-- hybrid/server.go: what one step of a handler does to the map of connections of the hybrid server,
-- to the IDs, and to where the connection of the handler stands.
use go_wst.Prelude.{
  ℕ, ◌≡◌, ◌≢◌, refl, ◌∙◌, String, Bool, true, false, ◌||◌, arith, Bool-cases, inl, inr,
}
use go_wst.Registry.{View, Change, keeps, adds, drops, Naming}
use go_wst.Ws.Connection.{set_user_id}
use go_wst.Ws.Server.{id_of, write_conn}
use go_wst.Ws.Handler.{
  Phase, waiting, admitted, counted, allowed, listed, running, closing, unlisted, unbound, gone,
  requests, upgrades, authenticates, connects, renames, pumps_end, goes,
}
use go_wst.Ws.Handler
use go_wst.Ws.Handler.Listed.{is_open, step-Naming, step-id}
use go_wst.Ws.Handler.Listed
use go_wst.Hybrid.Server.{
  ws_on_connect, on_connect, on_disconnect, bind_user, register_connection, unregister_connection,
}
use go_wst.Hybrid.Serving.{
  Stage, unmet, met, refused, left, Input, goes_on, meets, disconnects, binds, Both, proceeds,
  stage_after, web_step, step,
}

-- The connection stands in the map from `OnConnect` to `OnDisconnect`, or for ever if it is refused.
abbrev pub is_met : Stage → Bool
is_met met = true
is_met refused = true
is_met _ = false

abbrev Place : Type 0
Place = Phase × Stage

abbrev pub view : View Both Place
view = record {
  connections = λ b. b.hybrid.connections;
  id_of = λ b. id_of b.web;
  is_listed = λ p. is_met p.1;
  is_open = λ p. is_open p.0 || is_met p.1;
}

is_met-stage_after :
    (st : Stage) (i : Handler.Input) (p : Phase) → is_met (stage_after st i p) ≡ is_met st
unfolding stage_after
is_met-stage_after met (connects false) listed = refl
is_met-stage_after st _ _ = refl

pub step-Change :
    (c : ℕ) (i : Input) (b : Both) (p : Phase) (st : Stage)
    → Change view c b (step c i b p st).0 (p, st) (step c i b p st).1
unfolding step web_step ws_on_connect on_connect register_connection on_disconnect
    unregister_connection bind_user
step-Change c (goes_on i) b p st = elim (Bool-cases (proceeds i p st)) [
  | inl now ↦ rw now (keeps refl (is_met-stage_after st i p))
  | inr waits ↦ rw waits (keeps refl refl)
]
step-Change c meets b listed unmet = adds refl refl refl refl
step-Change c disconnects b running met = drops refl refl refl refl
step-Change c (binds user) b running met = keeps refl refl
step-Change c _ b p st = keeps refl refl

-- `generateConnID` gives the connection of thread `c` the ID `ids c`.
abbrev pub Names : (ℕ → String) → ℕ × Input → Type 0
Names ids (c, goes_on i) = Listed.Names ids (c, i)
Names ids _ = Unit {0}

web_step-Naming :
    (ids : ℕ → String) (c : ℕ) (i : Handler.Input) (b : Both) (p : Phase) (st : Stage)
    → Listed.Names ids (c, i)
    → Naming view ids c b (web_step c i b p st).0 (p, st) (web_step c i b p st).1
unfolding web_step
web_step-Naming ids c i b p st n =
    let naming = step-Naming ids c i b.web p n in
    record {
      others = naming.others;
      own = λ h o. elim (Bool-cases (is_open (Handler.step c i b.web p).1)) [
        | inl exists ↦ naming.own (λ e. h (ground arith)) exists
        | inr shut ↦
            let named = h (ground (arith, is_met-stage_after st i p)) in
            elim (step-id ids c i b.web p n) [ inl new ↦ new | inr kept ↦ kept ∙ named ]
      ];
    }

binds-id :
    (c : ℕ) (user : String) (b : Both)
    → id_of (write_conn c (set_user_id user (b.web.conns c)) b.web) c ≡ id_of b.web c
unfolding write_conn set_user_id
binds-id c user b = ground arith

rename_others :
    (c d : ℕ) (user : String) (b : Both)
    → d ≢ c
    → id_of (write_conn c (set_user_id user (b.web.conns c)) b.web) d ≡ id_of b.web d
unfolding write_conn
rename_others c d user b ne = ground arith

pub step-Naming_both :
    (ids : ℕ → String) (c : ℕ) (i : Input) (b : Both) (p : Phase) (st : Stage)
    → Names ids (c, i)
    → Naming view ids c b (step c i b p st).0 (p, st) (step c i b p st).1
unfolding step write_conn
step-Naming_both ids c (goes_on i) b p st n = elim (Bool-cases (proceeds i p st)) [
  | inl now ↦ rw now (web_step-Naming ids c i b p st n)
  | inr waits ↦ rw waits (record { others = λ d ne. refl; own = λ h o. h o })
]
step-Naming_both ids c meets b listed unmet n = record {
  others = λ d ne. refl;
  own = λ h o. h refl;
}
step-Naming_both ids c disconnects b running met n = record {
  others = λ d ne. refl;
  own = λ h o. h refl;
}
step-Naming_both ids c (binds user) b running met n = record {
  others = λ d ne. rename_others c d user b ne;
  own = λ h o. binds-id c user b ∙ h refl;
}
step-Naming_both ids c _ b p st n = record { others = λ d ne. refl; own = λ h o. h o }

-- A connection that is registered and not refused has a handler at work.
abbrev pub serves : Stage → Phase → Bool
serves met listed = true
serves met running = true
serves met _ = false
serves _ _ = true

-- A step that is let through keeps it so.
web_step-serves :
    (st : Stage) (c : ℕ) (i : Handler.Input) (b : Both) (p : Phase)
    → proceeds i p st ≡ true
    → serves st p ≡ true
    → serves (web_step c i b p st).1.1 (web_step c i b p st).1.0 ≡ true
unfolding web_step stage_after proceeds Handler.step
web_step-serves unmet c i b p e h = refl
web_step-serves refused c i b p e h = refl
web_step-serves left c i b p e h = refl
web_step-serves met c (connects true) b listed e h = refl
web_step-serves met c (connects false) b listed e h = refl
web_step-serves met c pumps_end b running e h = absurd (cc)
web_step-serves met c (renames user) b running e h = refl
web_step-serves met c (upgrades false conn_id) b listed e h = refl
web_step-serves met c (upgrades true conn_id) b listed e h = refl
web_step-serves met c i b listed e h = refl
web_step-serves met c (upgrades false conn_id) b running e h = refl
web_step-serves met c (upgrades true conn_id) b running e h = refl
web_step-serves met c (connects false) b running e h = refl
web_step-serves met c (connects true) b running e h = refl
web_step-serves met c i b running e h = refl
web_step-serves met c i b _ e h = absurd (cc)

pub step-serves :
    (c : ℕ) (i : Input) (b : Both) (p : Phase) (st : Stage)
    → serves st p ≡ true
    → serves (step c i b p st).1.1 (step c i b p st).1.0 ≡ true
unfolding step
step-serves c (goes_on i) b p st h = elim (Bool-cases (proceeds i p st)) [
  | inl now ↦ rw now (web_step-serves st c i b p now h)
  | inr waits ↦ rw waits h
]
step-serves c meets b listed unmet h = refl
step-serves c disconnects b running met h = refl
step-serves c (binds user) b running met h = refl
step-serves c _ b p st h = h
