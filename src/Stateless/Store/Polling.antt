-- ===== src/Stateless/Store/Polling.antt =====
-- stateless/store.go: what a client that polls with the ID of its last message receives.
use go_wst.Prelude.{
  ℕ, zero, suc, ◌+◌, ◌*◌, ◌≤◌, ◌≡◌, refl, sym, ap, ap₂, ◌∙◌, String, List, [], ◌∷◌, ◌++◌, true,
  false, length, take, drop, arith,
}
use go_wst.Prelude.Int.{ℤ, pos, ltb_ℤ, max_int64}
use go_wst.Protocol.Message.{Message}
use go_wst.Stateless.Store.{MemoryStore, fetch, messages_of, store, clear}
use go_wst.Stateless.Store.Fetch.{newer, at_most, fetch-newer, take_nil}
use go_wst.Stateless.Store.Numbering.{
  CountsFrom, IsNumbered, length-messages_of-store, store-IsNumbered, clear_self, empty-IsNumbered,
}

newer_all : (n k : ℕ) (ms : List Message) → CountsFrom n ms → k ≤ n → newer (pos k) ms ≡ ms
unfolding newer
newer_all n k [] c h = refl
newer_all n k (m ∷ ms) c h =
    let new : ltb_ℤ (pos k) m.id ≡ true = rw c.0 (ground arith) in
    rw (new, newer_all (n + 1) k ms c.1 (omega arith))

newer-drop : (n k : ℕ) (ms : List Message) → CountsFrom n ms → newer (pos (n + k)) ms ≡ drop k ms
unfolding newer
newer-drop n zero ms c = newer_all n (n + 0) ms c (omega arith)
newer-drop n (suc k) [] c = refl
newer-drop n (suc k) (m ∷ ms) c =
    let old : ltb_ℤ (pos (n + suc k)) m.id ≡ false = rw c.0 (ground arith) in
    let e : n + suc k ≡ n + 1 + k = omega arith in
    rw old (ap (λ i. newer (pos i) ms) e ∙ newer-drop (n + 1) k ms c.1)

-- A client that has the first `k` messages receives the ones that follow them, in order and with
-- no gap, as many as the limit allows.
pub fetch_next :
    (s : MemoryStore) (user : String) (k : ℕ) (limit : ℤ)
    → IsNumbered s user
    → fetch s user (pos k) limit ≡ take (at_most limit) (drop k (messages_of s user))
fetch_next s user k limit num =
    fetch-newer s user (pos k) limit
    ∙ ap (take (at_most limit)) (
        ap (λ n. newer (pos n) (messages_of s user)) (omega arith)
        ∙ newer-drop 0 k (messages_of s user) num.counts)

-- A client that polls `rounds` times, from `since` on: what it receives in all.
unfoldable pub poll : ℕ → MemoryStore → String → ℕ → ℤ → List Message
poll zero s user since limit = []
poll (suc rounds) s user since limit =
    let batch = fetch s user (pos since) limit in
    batch ++ poll rounds s user (since + length batch) limit

drop_nil {ℓ} : {A : Type ℓ} (n : ℕ) → drop {A = A} n [] ≡ []
drop_nil zero = refl
drop_nil (suc n) = refl

take-add {ℓ} :
    {A : Type ℓ} (a b : ℕ) (xs : List A) → take (a + b) xs ≡ take a xs ++ take b (drop a xs)
take-add zero b xs = ap (λ n. take n xs) (omega arith)
take-add (suc a) b [] = take_nil (suc a + b) ∙ sym (take_nil b)
take-add (suc a) b (x ∷ xs) =
    let e : suc a + b ≡ suc (a + b) = omega arith in rw (e, take-add a b xs)

drop-drop {ℓ} : {A : Type ℓ} (a b : ℕ) (xs : List A) → drop (a + b) xs ≡ drop b (drop a xs)
drop-drop zero b xs = ap (λ n. drop n xs) (omega arith)
drop-drop (suc a) b [] = drop_nil (suc a + b) ∙ sym (drop_nil b)
drop-drop (suc a) b (x ∷ xs) =
    let e : suc a + b ≡ suc (a + b) = omega arith in rw (e, drop-drop a b xs)

drop-length-take {ℓ} : {A : Type ℓ} (a : ℕ) (xs : List A) → drop (length (take a xs)) xs ≡ drop a xs
drop-length-take zero xs = refl
drop-length-take (suc a) [] = refl
drop-length-take (suc a) (x ∷ xs) = drop-length-take a xs

-- Where a user's messages are numbered, `rounds` polls of a client that has the first `k` bring the
-- next `rounds` times the limit of messages, each once and in order: a client that polls often
-- enough receives every message.
pub poll-take :
    (rounds : ℕ) (s : MemoryStore) (user : String) (k : ℕ) (limit : ℤ)
    → IsNumbered s user
    → poll rounds s user k limit ≡ take (rounds * at_most limit) (drop k (messages_of s user))
unfolding poll
poll-take zero s user k limit num =
    let no_rounds : 0 ≡ 0 * at_most limit = omega arith in
    ap (λ n. take n (drop k (messages_of s user))) no_rounds
poll-take (suc rounds) s user k limit num =
    let left = drop k (messages_of s user) in
    let rounds_of_one : at_most limit + rounds * at_most limit ≡ suc rounds * at_most limit =
      omega arith in
    let now = fetch_next s user k limit num in
    let later =
      poll-take rounds s user (k + length (fetch s user (pos k) limit)) limit num
      ∙ ap (take (rounds * at_most limit)) (
          drop-drop k (length (fetch s user (pos k) limit)) (messages_of s user)
          ∙ ap (λ b. drop (length b) left) now
          ∙ drop-length-take (at_most limit) left) in
    ap₂ ◌++◌ now later
    ∙ sym (take-add (at_most limit) (rounds * at_most limit) left)
    ∙ ap (λ n. take n left) rounds_of_one

-- Messages stored one after another for one user.
unfoldable pub store_all : ℤ → MemoryStore → String → List Message → MemoryStore
store_all now s user [] = s
store_all now s user (m ∷ ms) = store_all now (store now s user m) user ms

drop_all {ℓ} : {A : Type ℓ} (k : ℕ) (xs : List A) → length xs ≤ k → drop k xs ≡ []
drop_all zero [] h = refl
drop_all zero (x ∷ xs) h = absurd (omega arith)
drop_all (suc k) [] h = refl
drop_all (suc k) (x ∷ xs) h = drop_all k xs (omega arith)

store_all-IsNumbered :
    (now : ℤ) (s : MemoryStore) (user : String) (ms : List Message)
    → length (messages_of s user) + length ms ≤ max_int64
    → IsNumbered s user
    → IsNumbered (store_all now s user ms) user
      × (length (messages_of (store_all now s user ms) user)
          ≡ length (messages_of s user) + length ms)
unfolding store_all
store_all-IsNumbered now s user [] h num = (num, omega arith)
store_all-IsNumbered now s user (m ∷ ms) h num =
    let grown : length (messages_of (store now s user m) user) ≡ length (messages_of s user) + 1 =
      length-messages_of-store now s user m in
    let (num', total) =
      store_all-IsNumbered now (store now s user m) user ms (omega arith)
        (store-IsNumbered now s user user m (omega arith) num num) in
    (num', omega arith)

-- `Clear` starts the numbers again: a client whose last message had ID `k` then receives none of
-- the next messages of its user, up to `k` of them and fewer than 2^63.
pub fetch-clear :
    (now : ℤ) (s : MemoryStore) (user : String) (ms : List Message) (k : ℕ) (limit : ℤ)
    → length ms ≤ k
    → length ms ≤ max_int64
    → fetch (store_all now (clear s user) user ms) user (pos k) limit ≡ []
fetch-clear now s user ms k limit h small =
    let (none_left, zero_last) = clear_self s user in
    let (num, total) =
      store_all-IsNumbered now (clear s user) user ms (rw none_left (omega arith))
        (empty-IsNumbered (clear s user) user none_left zero_last) in
    let short : length (messages_of (store_all now (clear s user) user ms) user) ≤ k =
      rw total (rw none_left (omega arith)) in
    fetch_next (store_all now (clear s user) user ms) user k limit num
    ∙ ap (take (at_most limit)) (drop_all k _ short)
    ∙ take_nil (at_most limit)
