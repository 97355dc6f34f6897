-- ===== src/Registry/Mirror.antt =====
-- ws/server.go, wt/server.go and hybrid/server.go: a map of connections that the threads of many
-- handlers change. A view says what is read of a server and of the phase of a thread.
use go_wst.Prelude.{
  ℕ, ◌≡◌, ◌≢◌, ◌↔◌, sym, ap, subst, ◌∙◌, String, str_eq, eq_iff, some, Bool, true, false,
  if◌then◌else◌, ◌==◌, arith, Bool-cases, inl, inr, ℕ_discrete,
}
use go_wst.Prelude.Dict.{Dict, lookup, insert, delete, lookup-insert, lookup-delete}

-- `is_open` tells whether the connection of the thread exists, `is_listed` whether it is to be in
-- the map.
pub record View (S P : Type 0) : Type 0 where
  pub connections : S → Dict ℕ
  pub id_of : S → ℕ → String
  pub is_listed : P → Bool
  pub is_open : P → Bool

-- What one step of the thread `c` does to the map: nothing, its registration, or its removal.
pub data Change {S P : Type 0} (v : View S P) (c : ℕ) (s t : S) (p q : P) : Type 0 where
  keeps : v.connections t ≡ v.connections s → v.is_listed q ≡ v.is_listed p → Change v c s t p q
  adds :
      v.connections t ≡ insert (v.id_of s c) c (v.connections s)
      → v.is_listed p ≡ false
      → v.is_listed q ≡ true
      → v.is_open p ≡ true
      → Change v c s t p q
  drops :
      v.connections t ≡ delete (v.id_of s c) (v.connections s)
      → v.is_listed p ≡ true
      → v.is_listed q ≡ false
      → v.is_open p ≡ true
      → Change v c s t p q

-- What one step does to the IDs: those of other threads stay, and its own is as named.
pub record Naming {S P : Type 0} (v : View S P) (ids : ℕ → String) (c : ℕ) (s t : S) (p q : P)
    : Type 0 where
  pub others : (d : ℕ) → d ≢ c → v.id_of t d ≡ v.id_of s d
  pub own : (v.is_open p ≡ true → v.id_of s c ≡ ids c) → v.is_open q ≡ true → v.id_of t c ≡ ids c

-- The map holds a connection exactly while its thread says so, under its own ID.
pub record Mirrors {S P : Type 0} (v : View S P) (ids : ℕ → String) (s : S) (phase : ℕ → P)
    : Type 0 where
  pub names : (d : ℕ) → v.is_open (phase d) ≡ true → v.id_of s d ≡ ids d
  pub sound :
      (j : String) (d : ℕ)
      → lookup j (v.connections s) ≡ some d
      → (v.is_listed (phase d) ≡ true) × (ids d ≡ j)
  pub complete : (d : ℕ) → v.is_listed (phase d) ≡ true → lookup (ids d) (v.connections s) ≡ some d

module _ {S P : Type 0} (v : View S P) (ids : ℕ → String) where
  module _ (apart : (c d : ℕ) → ids c ≡ ids d → c ≡ d) (c : ℕ) (s t : S) (phase : ℕ → P) (q : P)
      (m : Mirrors v ids s phase) (naming : Naming v ids c s t (phase c) q) where
    abbrev after : ℕ → P
    after d = if d == c then q else phase d

    after_names : (d : ℕ) → v.is_open (after d) ≡ true → v.id_of t d ≡ ids d
    after_names d o = elim (ℕ_discrete d c) [
      | yes e ↦ subst (λ k. v.id_of t k ≡ ids k) (sym e) (naming.own (m.names c) (ground arith))
      | no ne ↦ naming.others d ne ∙ m.names d (ground arith)
    ]

    after_sound :
        Change v c s t (phase c) q
        → (j : String) (d : ℕ) → lookup j (v.connections t) ≡ some d
        → (v.is_listed (after d) ≡ true) × (ids d ≡ j)
    after_sound (keeps e l) j d h =
        let old = m.sound j d (ap (lookup j) (sym e) ∙ h) in (ground arith, old.1)
    after_sound (adds e lp lq o) j d h = elim (Bool-cases (str_eq (v.id_of s c) j)) [
      | inl hit ↦ ground (
        arith,
        ap (lookup j) e,
        lookup-insert (v.id_of s c) j c (v.connections s),
        eq_iff (v.id_of s c) j,
        m.names c o,
      )
      | inr miss ↦
          let old =
            m.sound j d (
              ground (arith, ap (lookup j) e, lookup-insert (v.id_of s c) j c (v.connections s))) in
          (ground arith, old.1)
    ]
    after_sound (drops e lp lq o) j d h =
        let miss : str_eq (v.id_of s c) j ≡ false =
          ground (arith, ap (lookup j) e, lookup-delete (v.id_of s c) j (v.connections s)) in
        let old =
          m.sound j d
            (ground (arith, ap (lookup j) e, lookup-delete (v.id_of s c) j (v.connections s))) in
        (ground (arith, m.names c o, eq_iff (v.id_of s c) j), old.1)

    after_complete :
        Change v c s t (phase c) q
        → (d : ℕ) → v.is_listed (after d) ≡ true
        → lookup (ids d) (v.connections t) ≡ some d
    after_complete (keeps e l) d h = ap (lookup (ids d)) e ∙ m.complete d (ground arith)
    after_complete (adds e lp lq o) d h =
        ap (lookup (ids d)) e
        ∙ ground (
          arith,
          lookup-insert (v.id_of s c) (ids d) c (v.connections s),
          eq_iff (v.id_of s c) (ids d),
          m.names c o,
          apart c d,
          m.complete d,
        )
    after_complete (drops e lp lq o) d h =
        ap (lookup (ids d)) e
        ∙ ground (
          arith,
          lookup-delete (v.id_of s c) (ids d) (v.connections s),
          eq_iff (v.id_of s c) (ids d),
          m.names c o,
          apart c d,
          m.complete d,
        )

    -- One step of a thread keeps the map in place, where no two connections get the same ID.
    pub after-Mirrors :
        Change v c s t (phase c) q → Mirrors v ids t (λ d. if d == c then q else phase d)
    after-Mirrors change = record {
      names = after_names;
      sound = after_sound change;
      complete = after_complete change;
    }

  pub Mirrors-iff :
      (s : S) (phase : ℕ → P) (j : String) (d : ℕ)
      → Mirrors v ids s phase
      → (lookup j (v.connections s) ≡ some d) ↔ ((v.is_listed (phase d) ≡ true) × (ids d ≡ j))
  Mirrors-iff s phase j d m =
      (m.sound j d, λ (l, e). subst (λ k. lookup k (v.connections s) ≡ some d) e (m.complete d l))
