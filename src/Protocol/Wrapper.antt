-- ===== src/Protocol/Wrapper.antt =====
-- internal/protocol/connection.go: the interface `Connection` as the two kinds of connection give it,
-- by methods on the struct that a pointer points at, and what the structs must keep for the laws.
use go_wst.Prelude.{
  ℕ, ◌≡◌, refl, inl, inr, String, str_eq, Option, some, if◌then◌else◌, ◌==◌, ==_iff, Bool-cases,
}
use go_wst.Prelude.Dict.{Dict, lookup}
use go_wst.Protocol.Message.{Bytes}
use go_wst.Protocol.Value.{Any}
use go_wst.Protocol.Connection.{Connections, IsLawful}

-- `send` is also given the pointer.
pub record Wrapper (V : Type 0) : Type 0 where
  pub user_id : V → String
  pub set_user_id : String → V → V
  pub metadata : V → Dict Any
  pub set_metadata : String → Any → V → V
  pub send : ℕ → Bytes → V → V × Option String

pub record IsWrapper {V : Type 0} (w : Wrapper V) : Type 1 where
  pub IsValid : V → Type 0
  pub set_user_id-IsValid : (u : String) (v : V) → IsValid v → IsValid (w.set_user_id u v)
  pub set_metadata-IsValid :
      (k : String) (x : Any) (v : V) → IsValid v → IsValid (w.set_metadata k x v)
  pub send-IsValid : (c : ℕ) (msg : Bytes) (v : V) → IsValid v → IsValid (w.send c msg v).0
  pub user_id-set_user_id : (u : String) (v : V) → w.user_id (w.set_user_id u v) ≡ u
  pub user_id-set_metadata :
      (k : String) (x : Any) (v : V) → w.user_id (w.set_metadata k x v) ≡ w.user_id v
  pub user_id-send : (c : ℕ) (msg : Bytes) (v : V) → w.user_id (w.send c msg v).0 ≡ w.user_id v
  pub metadata-set_user_id : (u : String) (v : V) → w.metadata (w.set_user_id u v) ≡ w.metadata v
  pub metadata-set_metadata :
      (k j : String) (x : Any) (v : V)
      → IsValid v
      → lookup j (w.metadata (w.set_metadata k x v))
        ≡ (if str_eq k j then some x else lookup j (w.metadata v))
  pub metadata-send : (c : ℕ) (msg : Bytes) (v : V) → w.metadata (w.send c msg v).0 ≡ w.metadata v

module _ {V : Type 0} where
  abbrev put_conn : ℕ → V → (ℕ → V) → ℕ → V
  put_conn c v s d = if d == c then v else s d

  put_conn_lem {κ} :
      (P : V → Type κ) (c : ℕ) (v : V) (s : ℕ → V) (d : ℕ)
      → (d ≡ c → P v)
      → P (s d)
      → P (put_conn c v s d)
  put_conn_lem P c v s d here there = elim (Bool-cases (d == c)) [
    | inl same ↦ rw same (here ((==_iff d c).0 same))
    | inr other ↦ rw other there
  ]

module _ {V : Type 0} (w : Wrapper V) where
  unfoldable pub wrapped_conns : Connections (ℕ → V)
  wrapped_conns = record {
    user_id = λ c s. w.user_id (s c);
    set_user_id = λ c u s. put_conn c (w.set_user_id u (s c)) s;
    metadata = λ c s. w.metadata (s c);
    set_metadata = λ c k x s. put_conn c (w.set_metadata k x (s c)) s;
    send = λ c msg s. let (v, e) = w.send c msg (s c) in (put_conn c v s, e);
  }

  pub wrapped_conns-IsLawful : IsWrapper w → IsLawful wrapped_conns
  unfolding wrapped_conns
  wrapped_conns-IsLawful laws = record {
    IsValid = λ s. (c : ℕ) → laws.IsValid (s c);
    set_user_id-IsValid = λ c u s v d.
        put_conn_lem laws.IsValid c (w.set_user_id u (s c)) s d
          (λ e. laws.set_user_id-IsValid u (s c) (v c)) (v d);
    set_metadata-IsValid = λ c k x s v d.
        put_conn_lem laws.IsValid c (w.set_metadata k x (s c)) s d
          (λ e. laws.set_metadata-IsValid k x (s c) (v c)) (v d);
    send-IsValid = λ c msg s v d.
        put_conn_lem laws.IsValid c (w.send c msg (s c)).0 s d
          (λ e. laws.send-IsValid c msg (s c) (v c)) (v d);
    user_id-set_user_id = λ d c u s v. elim (Bool-cases (d == c)) [
      | inl same ↦ rw same (laws.user_id-set_user_id u (s c))
      | inr other ↦ rw other refl
    ];
    user_id-set_metadata = λ d c k x s v.
        put_conn_lem (λ y. w.user_id y ≡ w.user_id (s d)) c (w.set_metadata k x (s c)) s d
          (λ e. rw e (laws.user_id-set_metadata k x (s c))) refl;
    user_id-send = λ d c msg s v.
        put_conn_lem (λ y. w.user_id y ≡ w.user_id (s d)) c (w.send c msg (s c)).0 s d
          (λ e. rw e (laws.user_id-send c msg (s c))) refl;
    metadata-set_user_id = λ d c u s v.
        put_conn_lem (λ y. w.metadata y ≡ w.metadata (s d)) c (w.set_user_id u (s c)) s d
          (λ e. rw e (laws.metadata-set_user_id u (s c))) refl;
    metadata-set_metadata = λ d c k j x s v. elim (Bool-cases (d == c)) [
      | inl same ↦ rw (same, (==_iff d c).0 same) (laws.metadata-set_metadata k j x (s c) (v c))
      | inr other ↦ rw other refl
    ];
    metadata-send = λ d c msg s v.
        put_conn_lem (λ y. w.metadata y ≡ w.metadata (s d)) c (w.send c msg (s c)).0 s d
          (λ e. rw e (laws.metadata-send c msg (s c))) refl;
  }

  -- Connections of which each is valid are valid together.
  pub wrapped_conns-valid :
      (laws : IsWrapper w) (s : ℕ → V)
      → ((c : ℕ) → laws.IsValid (s c))
      → (wrapped_conns-IsLawful laws).IsValid s
  unfolding wrapped_conns-IsLawful
  wrapped_conns-valid laws s v = v
