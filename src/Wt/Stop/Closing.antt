-- ===== src/Wt/Stop/Closing.antt =====
-- wt/server.go: `done` and `once` of a connection over the steps of the handlers, and closing many.
use go_wst.Prelude.{
  ℕ, ◌≡◌, refl, sym, ◌∙◌, String, str_eq, List, [], ◌∷◌, Bool, true, false, if◌then◌else◌, ◌==◌,
  ==_iff, arith, Bool-cases, inl, inr, In,
}
use go_wst.Prelude.Go.{returns}
use go_wst.Prelude.Result.{Result, ok, err}
use go_wst.Wt.Connection.{Connection, new_connection, set_user_id}
use go_wst.Wt.Connection.Laws.{close-done}
use go_wst.Wt.Server.{
  Server, add_count, drop_count, write_conn, register_listed, unregister_listed, unregister_bound,
  bind_user, at_limit, close_conn, after_close,
}
use go_wst.Wt.Handler.{
  Phase, waiting, admitted, opened, allowed, counted, listed, raised, running, closing, unlisted,
  unbound, Input, authenticated, requests, upgrades, authenticates, connects, renames, streams_end,
  goes, step, System, advance, run,
}
use go_wst.Wt.Stop.{close_each}

-- Each connection closes its channel together with `once`.
abbrev ClosedOnce : Server → Type 0
ClosedOnce s = (d : ℕ) → (s.conns d).done ≡ (s.conns d).once

abbrev pub is_done : Server → ℕ → Bool
is_done s d = (s.conns d).done

-- The connection of the thread has been made.
abbrev pub is_past : Phase → Bool
is_past waiting = false
is_past admitted = false
is_past _ = true

-- What a step of the thread `c` does: no connection that exists is opened again.
pub record Closes (c : ℕ) (p : Phase) (s t : Server) : Type 0 where
  pub valid : ClosedOnce t
  pub stays : (d : ℕ) → (d ≡ c → is_past p ≡ true) → is_done s d ≡ true → is_done t d ≡ true

same-Closes : (c : ℕ) (p : Phase) (s t : Server) → ClosedOnce s → t.conns ≡ s.conns → Closes c p s t
same-Closes c p s t w e = record { valid = λ d. rw e (w d); stays = λ d past h. rw e h }

write_conn-Closes :
    (c : ℕ) (p : Phase) (v : Connection) (s : Server)
    → ClosedOnce s
    → v.done ≡ v.once
    → (is_past p ≡ true → is_done s c ≡ true → v.done ≡ true)
    → Closes c p s (write_conn c v s)
unfolding write_conn
write_conn-Closes c p v s w h k = record {
  valid = λ d. elim (Bool-cases (d == c)) [ inl same ↦ rw same h | inr other ↦ rw other (w d) ];
  stays = λ d past e. elim (Bool-cases (d == c)) [
    | inl same ↦
        let here : d ≡ c = (==_iff d c).0 same in rw (same, is_done) (k (past here) (rw here at e))
    | inr other ↦ rw (other, is_done) e
  ];
}

close_conn-Closes : (c : ℕ) (p : Phase) (s : Server) → ClosedOnce s → Closes c p s (close_conn c s)
unfolding close_conn after_close
close_conn-Closes c p s w =
    let (r, closed, done, once) = close-done (s.session_error c) (s.conns c) (w c) in
    rw (close_conn, closed) (write_conn-Closes c p r.0 s w (done ∙ sym once) (λ past h. done))

unregister_bound-same : (c : ℕ) (s : Server) → (unregister_bound c s).conns ≡ s.conns
unfolding unregister_bound
unregister_bound-same c s = ground arith

bind_user-Closes :
    (c : ℕ) (user : String) (b : Bool) (s : Server)
    → ClosedOnce s
    → Closes c opened s
        (if b then s else bind_user c user (write_conn c (set_user_id user (s.conns c)) s))
unfolding bind_user write_conn set_user_id
bind_user-Closes c user true s w = same-Closes c opened s s w refl
bind_user-Closes c user false s w = record {
  valid = λ d. ground (arith, w d, w c);
  stays = λ d past e. ground arith;
}

authenticated-Closes :
    (enabled : Bool) (r : Result String String) (c : ℕ) (s : Server)
    → ClosedOnce s
    → Closes c opened s (authenticated enabled r c s).0
unfolding authenticated
authenticated-Closes false r c s w = same-Closes c opened s s w refl
authenticated-Closes true (err x) c s w = same-Closes c opened s s w refl
authenticated-Closes true (ok user) c s w = bind_user-Closes c user (str_eq user "") s w

step-Closes :
    (c : ℕ) (i : Input) (s : Server) (p : Phase) → ClosedOnce s → Closes c p s (step c i s p).0
unfolding step add_count drop_count register_listed unregister_listed new_connection set_user_id
step-Closes c requests s waiting w = elim (Bool-cases (at_limit s)) [
  | inl full ↦ rw full (same-Closes c waiting s s w refl)
  | inr room ↦ rw room (same-Closes c waiting s s w refl)
]
step-Closes c (upgrades false conn_id) s admitted w = same-Closes c admitted s s w refl
step-Closes c (upgrades true conn_id) s admitted w =
    write_conn-Closes c admitted _ s w refl (λ past. absurd (cc))
step-Closes c (authenticates r) s opened w = authenticated-Closes s.auth_enabled r c s w
step-Closes c goes s allowed w = same-Closes c allowed s _ w refl
step-Closes c goes s counted w = same-Closes c counted s _ w refl
step-Closes c goes s listed w = same-Closes c listed s _ w refl
step-Closes c (connects true) s raised w = same-Closes c raised s s w refl
step-Closes c (connects false) s raised w = close_conn-Closes c raised s w
step-Closes c (renames user) s running w = write_conn-Closes c running _ s w (w c) (λ past h. h)
step-Closes c streams_end s running w = same-Closes c running s s w refl
step-Closes c goes s closing w = same-Closes c closing s _ w refl
step-Closes c goes s unlisted w = same-Closes c unlisted s _ w (unregister_bound-same c s)
step-Closes c goes s unbound w = same-Closes c unbound s _ w refl
step-Closes c _ s p w = same-Closes c p s s w refl

authenticated-past :
    (enabled : Bool) (r : Result String String) (c : ℕ) (s : Server)
    → is_past (authenticated enabled r c s).1 ≡ true
unfolding authenticated
authenticated-past false r c s = refl
authenticated-past true (err x) c s = refl
authenticated-past true (ok user) c s = refl

-- A thread that has its connection does not get another one.
step-past :
    (c : ℕ) (i : Input) (s : Server) (p : Phase)
    → is_past p ≡ true
    → is_past (step c i s p).1 ≡ true
unfolding step authenticated
step-past c requests s waiting e = absurd (cc)
step-past c (upgrades false conn_id) s admitted e = absurd (cc)
step-past c (upgrades true conn_id) s admitted e = absurd (cc)
step-past c (authenticates r) s opened e = authenticated-past s.auth_enabled r c s
step-past c goes s allowed e = refl
step-past c goes s counted e = refl
step-past c goes s listed e = refl
step-past c (connects true) s raised e = refl
step-past c (connects false) s raised e = refl
step-past c (renames user) s running e = refl
step-past c streams_end s running e = refl
step-past c goes s closing e = refl
step-past c goes s unlisted e = refl
step-past c goes s unbound e = refl
step-past c _ s p e = e

-- The connection of the thread is closed for good.
abbrev IsOver : ℕ → System → Type 0
IsOver d y = (is_past (y.phase d) ≡ true) × (is_done y.server d ≡ true)

advance-IsOver :
    (c d : ℕ) (i : Input) (y : System)
    → ClosedOnce y.server
    → ClosedOnce (advance c i y).server × (IsOver d y → IsOver d (advance c i y))
unfolding advance
advance-IsOver c d i y w =
    let closes = step-Closes c i y.server (y.phase c) w in
    (
      closes.valid,
      λ (past, done). (
        elim (Bool-cases (d == c)) [
          | inl same ↦
              rw same (step-past c i y.server (y.phase c) (rw ((==_iff d c).0 same) at past))
          | inr other ↦ rw other past
        ],
        closes.stays d (λ e. rw e at past) done,
      ),
    )

pub run-IsOver :
    (d : ℕ) (schedule : List (ℕ × Input)) (y : System)
    → ClosedOnce y.server
    → ClosedOnce (run schedule y).server × (IsOver d y → IsOver d (run schedule y))
unfolding run
run-IsOver d [] y w = (w, λ h. h)
run-IsOver d ((c, i) ∷ rest) y w =
    let (w', stays) = advance-IsOver c d i y w in
    let (w'', stays') = run-IsOver d rest (advance c i y) w' in (w'', λ h. stays' (stays h))

-- Closing the connections of a list does not panic; afterwards those are closed, and those that
-- were closed still are.
pub close_each_lem :
    (cs : List ℕ) (s : Server)
    → ClosedOnce s
    → (t : Server) × (close_each cs s ≡ returns t)
      × ClosedOnce t
      × ((d : ℕ) → In d cs → is_done t d ≡ true)
      × ((d : ℕ) → is_done s d ≡ true → is_done t d ≡ true)
unfolding close_each write_conn
close_each_lem [] s w = (s, refl, w, (λ d h. elim h [ ]), λ d h. h)
close_each_lem (c ∷ cs) s w =
    let (r, closed, done, once) = close-done (s.session_error c) (s.conns c) (w c) in
    let step = write_conn-Closes c running r.0 s w (done ∙ sym once) (λ past h. done) in
    let (t, rest, valid, within, kept) = close_each_lem cs (write_conn c r.0 s) step.valid in
    (
      t,
      rw closed rest,
      valid,
      (λ d h. elim h [
        | inl same ↦ kept d (ground (arith, same, done))
        | inr other ↦ within d other
      ]),
      λ d h. kept d (step.stays d (λ e. refl) h),
    )
