-- ===== src/Ws/Handler/Listed.antt =====
-- ws/server.go: what one step of a handler does to the map of connections and to their IDs.
use go_wst.Prelude.{
  ℕ, ◌≡◌, ◌⊎◌, refl, ap, ◌∙◌, String, str_eq, Bool, true, false, if◌then◌else◌, arith, Bool-cases,
  inl, inr,
}
use go_wst.Registry.{View, Change, keeps, adds, drops, Naming}
use go_wst.Prelude.Result.{Result, ok, err}
use go_wst.Ws.Connection.{new_connection, set_user_id}
use go_wst.Ws.Server.Kept.{Kept, close_conn-Kept, refuse_conn-Kept}
use go_wst.Ws.Server.{
  Server, add_count, drop_count, write_conn, register_connection, unregister_listed,
  unregister_bound, bind_user, at_limit, id_of,
}
use go_wst.Ws.Handler.{
  Phase, waiting, admitted, counted, allowed, listed, running, closing, unlisted, unbound, gone,
  Input, authenticated, requests, upgrades, authenticates, connects, renames, pumps_end, goes, step,
}

-- A connection stands in the map from its registration to its removal.
abbrev pub is_listed : Phase → Bool
is_listed listed = true
is_listed running = true
is_listed closing = true
is_listed _ = false

-- The connection of the thread exists.
abbrev pub is_open : Phase → Bool
is_open waiting = false
is_open admitted = false
is_open gone = false
is_open _ = true

-- `generateConnID` gives the connection of thread `c` the ID `ids c`.
abbrev pub Names : (ℕ → String) → ℕ × Input → Type 0
Names ids (c, upgrades _ conn_id) = conn_id ≡ ids c
Names ids _ = Unit {0}

bound_same :
    (b : Bool) (s t : Server)
    → t.connections ≡ s.connections
    → (if b then s else t).connections ≡ s.connections
bound_same true s t e = refl
bound_same false s t e = e

unregister_bound-connections :
    (c : ℕ) (s : Server) → (unregister_bound c s).connections ≡ s.connections
unfolding unregister_bound
unregister_bound-connections c s = ground arith

unregister_bound-conns : (c : ℕ) (s : Server) → (unregister_bound c s).conns ≡ s.conns
unfolding unregister_bound
unregister_bound-conns c s = ground arith

abbrev pub view : View Server Phase
view = record {
  connections = λ s. s.connections;
  id_of = id_of;
  is_listed = is_listed;
  is_open = is_open;
}

authenticated-Change :
    (enabled : Bool) (r : Result String String) (c : ℕ) (s : Server)
    → Change view c s (authenticated enabled r c s).0 counted (authenticated enabled r c s).1
unfolding authenticated drop_count bind_user write_conn
authenticated-Change false r c s = keeps refl refl
authenticated-Change true (err x) c s = keeps (refuse_conn-Kept c s).connections_same refl
authenticated-Change true (ok user) c s =
    keeps
      (bound_same (str_eq user "") s
        (bind_user c user (write_conn c (set_user_id user (s.conns c)) s)) refl)
      refl

pub step-Change :
    (c : ℕ) (i : Input) (s : Server) (p : Phase)
    → Change view c s (step c i s p).0 p (step c i s p).1
unfolding step add_count drop_count write_conn register_connection unregister_listed bind_user
step-Change c requests s waiting = elim (Bool-cases (at_limit s)) [
  | inl full ↦ rw full (keeps refl refl)
  | inr room ↦ rw room (keeps refl refl)
]
step-Change c (upgrades false conn_id) s admitted = keeps refl refl
step-Change c (upgrades true conn_id) s admitted = keeps refl refl
step-Change c (authenticates r) s counted = authenticated-Change s.auth_enabled r c s
step-Change c goes s allowed = adds refl refl refl refl
step-Change c (connects true) s listed = keeps refl refl
step-Change c (connects false) s listed = keeps (close_conn-Kept c s).connections_same refl
step-Change c (renames user) s running = keeps refl refl
step-Change c pumps_end s running = keeps (close_conn-Kept c s).connections_same refl
step-Change c goes s closing = drops refl refl refl refl
step-Change c goes s unlisted = keeps (unregister_bound-connections c s) refl
step-Change c goes s unbound = keeps refl refl
step-Change c _ s p = keeps refl refl

Kept-Naming :
    (ids : ℕ → String) (c : ℕ) (s t : Server) (p q : Phase)
    → is_open p ≡ true
    → Kept s t
    → Naming view ids c s t p q
Kept-Naming ids c s t p q open_p k = record {
  others = λ d ne. k.ids_same d;
  own = λ h o. k.ids_same c ∙ h open_p;
}

authenticated-Naming :
    (ids : ℕ → String) (enabled : Bool) (r : Result String String) (c : ℕ) (s : Server)
    → Naming view ids c s (authenticated enabled r c s).0 counted (authenticated enabled r c s).1
unfolding authenticated drop_count bind_user write_conn set_user_id
authenticated-Naming ids false r c s = record { others = λ d ne. refl; own = λ h o. h refl }
authenticated-Naming ids true (err x) c s = record {
  others = λ d ne. (refuse_conn-Kept c s).ids_same d;
  own = λ h o. absurd (cc);
}
authenticated-Naming ids true (ok user) c s = record {
  others = λ d ne. ground arith;
  own = λ h o. ground (arith, h refl);
}

pub step-Naming :
    (ids : ℕ → String) (c : ℕ) (i : Input) (s : Server) (p : Phase)
    → Names ids (c, i)
    → Naming view ids c s (step c i s p).0 p (step c i s p).1
unfolding step add_count drop_count write_conn register_connection unregister_listed set_user_id
    new_connection
step-Naming ids c requests s waiting n = elim (Bool-cases (at_limit s)) [
  | inl full ↦ rw full (record { others = λ d ne. refl; own = λ h o. absurd (cc) })
  | inr room ↦ rw room (record { others = λ d ne. refl; own = λ h o. absurd (cc) })
]
step-Naming ids c (upgrades false conn_id) s admitted n = record {
  others = λ d ne. refl;
  own = λ h o. absurd (cc);
}
step-Naming ids c (upgrades true conn_id) s admitted n = record {
  others = λ d ne. ground arith;
  own = λ h o. ground arith;
}
step-Naming ids c (authenticates r) s counted n = authenticated-Naming ids s.auth_enabled r c s
step-Naming ids c goes s allowed n = record { others = λ d ne. refl; own = λ h o. h refl }
step-Naming ids c (connects true) s listed n = record { others = λ d ne. refl; own = λ h o. h refl }
step-Naming ids c (connects false) s listed n =
    Kept-Naming ids c s _ listed closing refl (close_conn-Kept c s)
step-Naming ids c (renames user) s running n = record {
  others = λ d ne. ground arith;
  own = λ h o. ground (arith, h refl);
}
step-Naming ids c pumps_end s running n =
    Kept-Naming ids c s _ running closing refl (close_conn-Kept c s)
step-Naming ids c goes s closing n = record { others = λ d ne. refl; own = λ h o. h refl }
step-Naming ids c goes s unlisted n =
    let same = unregister_bound-conns c s in
    record {
      others = λ d ne. ap (λ f. (f d).id) same;
      own = λ h o. ap (λ f. (f c).id) same ∙ h refl;
    }
step-Naming ids c goes s unbound n = record { others = λ d ne. refl; own = λ h o. absurd (cc) }
step-Naming ids c _ s p n = record { others = λ d ne. refl; own = λ h o. h o }

authenticated-id :
    (enabled : Bool) (r : Result String String) (c : ℕ) (s : Server)
    → id_of (authenticated enabled r c s).0 c ≡ id_of s c
unfolding authenticated drop_count bind_user write_conn set_user_id
authenticated-id false r c s = refl
authenticated-id true (err x) c s = (refuse_conn-Kept c s).ids_same c
authenticated-id true (ok user) c s = ground arith

-- A step leaves the ID of its connection, unless it makes the connection.
pub step-id :
    (ids : ℕ → String) (c : ℕ) (i : Input) (s : Server) (p : Phase)
    → Names ids (c, i)
    → (id_of (step c i s p).0 c ≡ ids c) ⊎ (id_of (step c i s p).0 c ≡ id_of s c)
unfolding step add_count drop_count write_conn register_connection unregister_listed set_user_id
    new_connection
step-id ids c requests s waiting n = inr (ground arith)
step-id ids c (upgrades false conn_id) s admitted n = inr refl
step-id ids c (upgrades true conn_id) s admitted n = inl (ground arith)
step-id ids c (authenticates r) s counted n = inr (authenticated-id s.auth_enabled r c s)
step-id ids c goes s allowed n = inr refl
step-id ids c (connects true) s listed n = inr refl
step-id ids c (connects false) s listed n = inr ((close_conn-Kept c s).ids_same c)
step-id ids c (renames user) s running n = inr (ground arith)
step-id ids c pumps_end s running n = inr ((close_conn-Kept c s).ids_same c)
step-id ids c goes s closing n = inr refl
step-id ids c goes s unlisted n = inr (ap (λ f. (f c).id) (unregister_bound-conns c s))
step-id ids c goes s unbound n = inr refl
step-id ids c _ s p n = inr refl
