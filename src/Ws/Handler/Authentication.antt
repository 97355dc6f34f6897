-- ===== src/Ws/Handler/Authentication.antt =====
-- ws/server.go: what the block that authenticates a request makes of the authenticator's answer.
use go_wst.Prelude.{
  ℕ, ◌≡◌, ◌≢◌, ◌↔◌, ◌⊎◌, inl, inr, refl, String, str_eq, eq_iff, Bool, true, false, if◌then◌else◌,
  ◌&&◌, not, arith, Bool-cases,
}
use go_wst.Prelude.Dict.{str_eq_ne}
use go_wst.Prelude.Result.{ok, err}
use go_wst.Ws.Connection.{set_user_id, user_id}
use go_wst.Ws.Server.{Server, user_of, bind_user, write_conn, drop_count}
use go_wst.Ws.Server.Kept.{refuse_conn-Kept}
use go_wst.Ws.Handler.{allowed, authenticated}

-- A handler that authenticates a request for a user gives its connection that user.
pub user_of-authenticated :
    (user : String) (c : ℕ) (s : Server)
    → user ≢ ""
    → user_of (authenticated true (ok user) c s).0 c ≡ user
unfolding authenticated bind_user write_conn set_user_id user_id
user_of-authenticated user c s named = rw (str_eq_ne user "" named) (ground arith)

-- An authenticator that takes a name that is not empty lets a request in just when it has one, or
-- when it is not asked.
pub authenticated-name :
    (enabled : Bool) (name message : String) (c : ℕ) (s : Server)
    → let t = authenticated enabled (if str_eq name "" then err message else ok name) c s in
      ((t.1 ≡ allowed) ↔ ((enabled ≡ false) ⊎ (name ≢ "")))
      × (user_of t.0 c ≡ (if enabled && not (str_eq name "") then name else user_of s c))
unfolding authenticated drop_count
authenticated-name false name message c s = ((λ e. inl refl, λ e. refl), refl)
authenticated-name true name message c s = elim (Bool-cases (str_eq name "")) [
  | inl missing ↦ rw missing (
    (
      (λ e. absurd (cc)),
      (λ e. elim e [
        | inl off ↦ absurd (cc)
        | inr there ↦ absurd (there ((eq_iff name "").0 missing))
      ]),
    ),
    (refuse_conn-Kept c s).users_same c,
  )
  | inr there ↦
      let named : name ≢ "" = ground (arith, eq_iff name "") in
      rw there (((λ e. inr named), (λ e. refl)), user_of-authenticated name c s named)
]
