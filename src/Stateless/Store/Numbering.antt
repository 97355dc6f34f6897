-- ===== src/Stateless/Store/Numbering.antt =====
-- stateless/store.go, `Store` and `Clear`: the numbering of a user's messages.
use go_wst.Prelude.{
  ℕ, ◌+◌, ◌<◌, ◌≡◌, ◌≢◌, ap, subst, ◌∙◌, inl, inr, String, str_eq, eq_iff, List, [], ◌∷◌, ◌++◌,
  length, length-append, arith, Bool-cases,
}
use go_wst.Prelude.Int.{ℤ, pos, inc64, inc64-pos, max_int64}
use go_wst.Prelude.Dict.{lookup-insert_self, lookup-insert_ne, lookup-delete_self, lookup-delete_ne}
use go_wst.Protocol.Message.{Message}
use go_wst.Stateless.Store.{MemoryStore, messages_of, last_id_of, store, clear}

-- IDs that count up from `n + 1`.
abbrev pub CountsFrom : ℕ → List Message → Type 0
CountsFrom n [] = Unit {0}
CountsFrom n (m ∷ ms) = (m.id ≡ pos (n + 1)) × CountsFrom (n + 1) ms

-- A user's messages are numbered 1, 2, … and the last number is remembered.
pub record IsNumbered (s : MemoryStore) (user : String) : Type 0 where
  pub counts : CountsFrom 0 (messages_of s user)
  pub last : last_id_of s user ≡ pos (length (messages_of s user))

CountsFrom-append :
    (n : ℕ) (ms : List Message) (m : Message)
    → CountsFrom n ms
    → m.id ≡ pos (n + length ms + 1)
    → CountsFrom n (ms ++ m ∷ [])
CountsFrom-append n [] m h e = (e ∙ ap pos (omega arith), tt)
CountsFrom-append n (x ∷ ms) m h e =
    (h.0, CountsFrom-append (n + 1) ms m h.1 (e ∙ ap pos (omega arith)))

pub messages_of-store :
    (now : ℤ) (s : MemoryStore) (user : String) (msg : Message)
    → messages_of (store now s user msg) user
      ≡ messages_of s user ++ record msg { id = inc64 (last_id_of s user); timestamp = now } ∷ []
unfolding store messages_of
messages_of-store now s user msg = ground (
  arith,
  lookup-insert_self user
      (messages_of s user ++ record msg { id = inc64 (last_id_of s user); timestamp = now } ∷ [])
      s.messages,
)

pub length-messages_of-store :
    (now : ℤ) (s : MemoryStore) (user : String) (msg : Message)
    → length (messages_of (store now s user msg) user) ≡ length (messages_of s user) + 1
length-messages_of-store now s user msg = rw (messages_of-store now s user msg) (
    length-append (messages_of s user)
      (record msg { id = inc64 (last_id_of s user); timestamp = now } ∷ []))

last_id_of-store :
    (now : ℤ) (s : MemoryStore) (user : String) (msg : Message)
    → last_id_of (store now s user msg) user ≡ inc64 (last_id_of s user)
unfolding store last_id_of
last_id_of-store now s user msg =
    ground (arith, lookup-insert_self user (inc64 (last_id_of s user)) s.last_id)

-- Storing for one user leaves the others as they are.
pub store_other :
    (now : ℤ) (s : MemoryStore) (user v : String) (msg : Message)
    → user ≢ v
    → (messages_of (store now s user msg) v ≡ messages_of s v)
      × (last_id_of (store now s user msg) v ≡ last_id_of s v)
unfolding store messages_of last_id_of
store_other now s user v msg h = (
  ground (
    arith,
    lookup-insert_ne user v
        (messages_of s user ++ record msg { id = inc64 (last_id_of s user); timestamp = now } ∷ [])
        s.messages h,
  ),
  ground (arith, lookup-insert_ne user v (inc64 (last_id_of s user)) s.last_id h),
)

pub store-IsNumbered :
    (now : ℤ) (s : MemoryStore) (user v : String) (msg : Message)
    → length (messages_of s user) < max_int64
    → IsNumbered s user
    → IsNumbered s v
    → IsNumbered (store now s user msg) v
store-IsNumbered now s user v msg room num_user num_v = elim (Bool-cases (str_eq user v)) [
  | inl e ↦
      let next : inc64 (last_id_of s user) ≡ pos (length (messages_of s user) + 1) =
        ap inc64 num_user.last ∙ inc64-pos (length (messages_of s user)) room in
      subst (IsNumbered (store now s user msg)) ((eq_iff user v).0 e) (record {
        counts = rw (messages_of-store now s user msg) (
            CountsFrom-append 0 (messages_of s user) _ num_user.counts
              (next ∙ ap pos (omega arith)));
        last =
            rw (messages_of-store now s user msg, last_id_of-store now s user msg)
              (next
                ∙ ap pos (
                    omega (
                      arith,
                      length-append (messages_of s user)
                          (record msg { id = inc64 (last_id_of s user); timestamp = now } ∷ []),
                    )));
      })
  | inr e ↦
      let (ms, last) = store_other now s user v msg (λ p. ground (arith, eq_iff user v)) in
      record { counts = rw ms num_v.counts; last = rw (ms, last) num_v.last }
]

pub clear_self :
    (s : MemoryStore) (user : String)
    → (messages_of (clear s user) user ≡ []) × (last_id_of (clear s user) user ≡ pos 0)
unfolding clear messages_of last_id_of
clear_self s user = (
  ground (arith, lookup-delete_self user s.messages),
  ground (arith, lookup-delete_self user s.last_id),
)

pub clear_other :
    (s : MemoryStore) (user v : String)
    → user ≢ v
    → (messages_of (clear s user) v ≡ messages_of s v)
      × (last_id_of (clear s user) v ≡ last_id_of s v)
unfolding clear messages_of last_id_of
clear_other s user v h = (
  ground (arith, lookup-delete_ne user v s.messages h),
  ground (arith, lookup-delete_ne user v s.last_id h),
)

pub clear-IsNumbered :
    (s : MemoryStore) (user v : String) → IsNumbered s v → IsNumbered (clear s user) v
clear-IsNumbered s user v num = elim (Bool-cases (str_eq user v)) [
  | inl e ↦
      let (ms, last) = clear_self s user in
      subst (IsNumbered (clear s user)) ((eq_iff user v).0 e)
        (record { counts = rw ms tt; last = rw (ms, last) })
  | inr e ↦
      let (ms, last) = clear_other s user v (λ p. ground (arith, eq_iff user v)) in
      record { counts = rw ms num.counts; last = rw (ms, last) num.last }
]

pub empty-IsNumbered :
    (s : MemoryStore) (v : String) → messages_of s v ≡ [] → last_id_of s v ≡ pos 0 → IsNumbered s v
empty-IsNumbered s v ms last = record { counts = rw ms tt; last = rw (ms, last) }
