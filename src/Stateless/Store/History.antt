-- ===== src/Stateless/Store/History.antt =====
-- stateless/store.go: the numbering over histories of calls.
use go_wst.Prelude.{
  ℕ, suc, ◌+◌, ◌≤◌, ◌<◌, ◌≡◌, refl, ap, ◌∙◌, if◌then◌else◌, ◌++◌, subst, inl, inr, String, str_eq,
  eq_iff, List, [], ◌∷◌, length, length-append, arith, Bool-cases,
}
use go_wst.Prelude.Int.{ℤ, pos, inc64, inc64-pos, max_int64}
use go_wst.Prelude.Dict.{lookup}
use go_wst.Protocol.Message.{Message}
use go_wst.Stateless.Store.{
  MemoryStore, new_memory_store, messages_of, last_id_of, store, clear, clear_all,
}
use go_wst.Stateless.Store.Numbering.{
  IsNumbered, store_other, store-IsNumbered, clear_self, clear_other, clear-IsNumbered,
  empty-IsNumbered, messages_of-store,
}

-- A history of the operations that change a store.
pub data Call : Type 0 where
  stores : ℤ → String → Message → Call
  clears : String → Call
  clears_all : Call

unfoldable pub run : MemoryStore → List Call → MemoryStore
run s [] = s
run s (stores now user msg ∷ calls) = run (store now s user msg) calls
run s (clears user ∷ calls) = run (clear s user) calls
run s (clears_all ∷ calls) = run (clear_all s) calls

clear_all-empty :
    (s : MemoryStore) (v : String)
    → (messages_of (clear_all s) v ≡ []) × (last_id_of (clear_all s) v ≡ pos 0)
unfolding clear_all messages_of last_id_of lookup
clear_all-empty s v = (refl, refl)

-- Every user is numbered, and nobody has more messages than there is room for.
record Fits (room : ℕ) (s : MemoryStore) : Type 0 where
  numbered : (v : String) → IsNumbered s v
  short : (v : String) → length (messages_of s v) + room ≤ max_int64

store-short :
    (now : ℤ) (s : MemoryStore) (user v : String) (msg : Message)
    → length (messages_of (store now s user msg) v) ≤ length (messages_of s v) + 1
store-short now s user v msg = elim (Bool-cases (str_eq user v)) [
  | inl e ↦
      subst (λ u. length (messages_of (store now s user msg) u) ≤ length (messages_of s u) + 1)
        ((eq_iff user v).0 e)
        (rw (messages_of-store now s user msg) (
          omega (
            arith,
            length-append (messages_of s user)
                (record msg { id = inc64 (last_id_of s user); timestamp = now } ∷ []),
          )))
  | inr e ↦
      let (ms, last) = store_other now s user v msg (λ p. ground (arith, eq_iff user v)) in
      rw ms (omega arith)
]

clear-short :
    (s : MemoryStore) (user v : String)
    → length (messages_of (clear s user) v) ≤ length (messages_of s v)
clear-short s user v = elim (Bool-cases (str_eq user v)) [
  | inl e ↦
      subst (λ u. length (messages_of (clear s user) u) ≤ length (messages_of s u))
        ((eq_iff user v).0 e) (rw ((clear_self s user).0) (omega arith))
  | inr e ↦
      let (ms, last) = clear_other s user v (λ p. ground (arith, eq_iff user v)) in
      rw ms (omega arith)
]

-- What one call leaves room for.
store-Fits :
    (room : ℕ) (now : ℤ) (s : MemoryStore) (user : String) (msg : Message)
    → Fits (suc room) s
    → Fits room (store now s user msg)
store-Fits room now s user msg f = record {
  numbered = λ u.
      store-IsNumbered now s user u msg (omega (arith, f.short user)) (f.numbered user)
        (f.numbered u);
  short = λ u. omega (arith, f.short u, store-short now s user u msg);
}

clear-Fits :
    (room : ℕ) (s : MemoryStore) (user : String) → Fits (suc room) s → Fits room (clear s user)
clear-Fits room s user f = record {
  numbered = λ u. clear-IsNumbered s user u (f.numbered u);
  short = λ u. omega (arith, f.short u, clear-short s user u);
}

clear_all-Fits : (room : ℕ) (s : MemoryStore) → Fits (suc room) s → Fits room (clear_all s)
clear_all-Fits room s f = record {
  numbered = λ u. let (ms, last) = clear_all-empty s u in empty-IsNumbered (clear_all s) u ms last;
  short = λ u. rw ((clear_all-empty s u).0) (omega (arith, f.short u));
}

-- What a user was sent since the last clear, each with its time and its place: `ms` is what there was
-- before the calls.
unfoldable pub kept : String → List Message → List Call → List Message
kept user ms [] = ms
kept user ms (stores now v msg ∷ calls) =
    kept user
      (if str_eq v user
        then ms ++ record msg { id = pos (length ms + 1); timestamp = now } ∷ []
        else ms)
      calls
kept user ms (clears v ∷ calls) = kept user (if str_eq v user then [] else ms) calls
kept user ms (clears_all ∷ calls) = kept user [] calls

store-kept :
    (now : ℤ) (s : MemoryStore) (v user : String) (msg : Message)
    → IsNumbered s v
    → length (messages_of s v) < max_int64
    → messages_of (store now s v msg) user ≡ (
        if str_eq v user
        then messages_of s user
          ++ record msg { id = pos (length (messages_of s user) + 1); timestamp = now } ∷ []
        else messages_of s user)
store-kept now s v user msg num room = elim (Bool-cases (str_eq v user)) [
  | inl e ↦
      let next : inc64 (last_id_of s v) ≡ pos (length (messages_of s v) + 1) =
        ap inc64 num.last ∙ inc64-pos (length (messages_of s v)) room in
      let appended : messages_of (store now s v msg) v
          ≡ messages_of s v
            ++ record msg { id = pos (length (messages_of s v) + 1); timestamp = now } ∷ [] =
        messages_of-store now s v msg
        ∙ ap (λ i. messages_of s v ++ record msg { id = i; timestamp = now } ∷ []) next in
      rw e (
        subst
          (λ u.
            messages_of (store now s v msg) u
            ≡ messages_of s u
              ++ record msg { id = pos (length (messages_of s u) + 1); timestamp = now } ∷ [])
          ((eq_iff v user).0 e) appended)
  | inr e ↦ rw e ((store_other now s v user msg (λ p. ground (arith, eq_iff v user))).0)
]

clear-kept :
    (s : MemoryStore) (v user : String)
    → messages_of (clear s v) user ≡ (if str_eq v user then [] else messages_of s user)
clear-kept s v user = elim (Bool-cases (str_eq v user)) [
  | inl e ↦
      rw e (subst (λ u. messages_of (clear s v) u ≡ []) ((eq_iff v user).0 e) ((clear_self s v).0))
  | inr e ↦ rw e ((clear_other s v user (λ p. ground (arith, eq_iff v user))).0)
]

run-kept :
    (calls : List Call) (s : MemoryStore) (user : String)
    → Fits (length calls) s
    → (messages_of (run s calls) user ≡ kept user (messages_of s user) calls)
      × IsNumbered (run s calls) user
unfolding run kept
run-kept [] s user f = (refl, f.numbered user)
run-kept (stores now v msg ∷ calls) s user f =
    let (ms, num) =
      run-kept calls (store now s v msg) user (store-Fits (length calls) now s v msg f) in
    (
      ms
          ∙ ap (λ xs. kept user xs calls)
              (store-kept now s v user msg (f.numbered v) (omega (arith, f.short v))),
      num,
    )
run-kept (clears v ∷ calls) s user f =
    let (ms, num) = run-kept calls (clear s v) user (clear-Fits (length calls) s v f) in
    (ms ∙ ap (λ xs. kept user xs calls) (clear-kept s v user), num)
run-kept (clears_all ∷ calls) s user f =
    let (ms, num) = run-kept calls (clear_all s) user (clear_all-Fits (length calls) s f) in
    (ms ∙ ap (λ xs. kept user xs calls) ((clear_all-empty s user).0), num)

new-empty :
    (v : String) → (messages_of new_memory_store v ≡ []) × (last_id_of new_memory_store v ≡ pos 0)
unfolding new_memory_store messages_of last_id_of lookup
new-empty v = (refl, refl)

-- After any history of fewer than 2^63 calls a user has just the messages that were stored for it
-- since it was last cleared, in that order, each with the time at which it was stored and with its
-- place, from 1, as its number; the last number given is the number of these messages.
pub run-IsNumbered :
    (calls : List Call) (user : String)
    → length calls ≤ max_int64
    → (messages_of (run new_memory_store calls) user ≡ kept user [] calls)
      × IsNumbered (run new_memory_store calls) user
run-IsNumbered calls user h =
    let (ms, num) = run-kept calls new_memory_store user (record {
      numbered = λ u. let (ms, last) = new-empty u in empty-IsNumbered new_memory_store u ms last;
      short = λ u. rw ((new-empty u).0) (omega arith);
    }) in
    (ms ∙ ap (λ xs. kept user xs calls) ((new-empty user).0), num)
