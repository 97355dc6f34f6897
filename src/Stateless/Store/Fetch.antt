-- ===== src/Stateless/Store/Fetch.antt =====
-- stateless/store.go, `Fetch`: the loop against a filter and a bound.
use go_wst.Prelude.{
  ℕ, zero, suc, ◌-◌, ◌≤◌, ◌<◌, ◌≡◌, refl, sym, ap, ◌∙◌, inl, inr, String, List, [], ◌∷◌, ◌++◌, true,
  false, if◌then◌else◌, length, length-append, take, arith, max, Bool-cases, Option-cases,
}
use go_wst.Prelude.Int.{ℤ, pos, negsuc, ltb_ℤ, leb_ℤ, pos_part}
use mathlib.Core.List.{append-nil, append_assoc}
use go_wst.Prelude.Dict.{lookup}
use go_wst.Protocol.Message.{Message}
use go_wst.Stateless.Store.{MemoryStore, fetch_loop, fetch, messages_of}

-- The messages with an ID above `since`, in their order.
unfoldable pub newer : ℤ → List Message → List Message
newer since [] = []
newer since (m ∷ ms) = if ltb_ℤ since m.id then m ∷ newer since ms else newer since ms

-- How many messages `Fetch` returns at most: the limit, but one where the limit is not positive.
abbrev pub at_most : ℤ → ℕ
at_most limit = max 1 (pos_part limit)

limit_reached : (limit : ℤ) (k : ℕ) → leb_ℤ limit (pos k) ≡ true → 0 < k → at_most limit ≤ k
limit_reached (pos n) k e h = ground arith
limit_reached (negsuc n) k e h = omega arith

limit_open : (limit : ℤ) (k : ℕ) → leb_ℤ limit (pos k) ≡ false → k < at_most limit
limit_open (pos n) k e = ground arith
limit_open (negsuc n) k e = ground arith

take_some :
    (n : ℕ) (m : Message) (ms : List Message) → 0 < n → take n (m ∷ ms) ≡ m ∷ take (n - 1) ms
take_some zero m ms h = absurd (omega arith)
take_some (suc n) m ms h = let e : suc n - 1 ≡ n = omega arith in rw e

take_one : (n : ℕ) (m : Message) (ms : List Message) → n ≡ 1 → take n (m ∷ ms) ≡ m ∷ []
take_one n m ms h = rw h

pub take_nil {ℓ} : {A : Type ℓ} (n : ℕ) → take {A = A} n [] ≡ []
take_nil zero = refl
take_nil (suc n) = refl

fetch_loop-take :
    (since limit : ℤ) (result ms : List Message)
    → length result < at_most limit
    → fetch_loop since limit result ms
      ≡ result ++ take (at_most limit - length result) (newer since ms)
unfolding fetch_loop newer
fetch_loop-take since limit result [] h =
    rw (take_nil (at_most limit - length result), append-nil result)
fetch_loop-take since limit result (m ∷ ms) h = elim (Bool-cases (ltb_ℤ since m.id)) [
  | inr old ↦ rw old (fetch_loop-take since limit result ms h)
  | inl new ↦
      let grown = length-append result (m ∷ []) in
      elim (Bool-cases (leb_ℤ limit (pos (length (result ++ m ∷ []))))) [
        | inl full ↦
            let last = limit_reached limit (length (result ++ m ∷ [])) full (omega arith) in
            rw
              (new, full, take_one (at_most limit - length result) m (newer since ms) (omega arith))
        | inr room ↦
            let open' = limit_open limit (length (result ++ m ∷ [])) room in
            let left : at_most limit - length (result ++ m ∷ [])
                ≡ at_most limit - length result - 1 =
              omega arith in
            rw
              (
                new,
                room,
                take_some (at_most limit - length result) m (newer since ms) (omega arith),
              )
              (fetch_loop-take since limit (result ++ m ∷ []) ms open'
                ∙ ap (λ n. (result ++ m ∷ []) ++ take n (newer since ms)) left
                ∙ append_assoc result (m ∷ []) _)
      ]
]

-- `Fetch` returns the first messages of the user with an ID above `since`, in the order in which
-- they were stored, as many as the limit allows; a limit that is not positive allows one.
pub fetch-newer :
    (s : MemoryStore) (user : String) (since limit : ℤ)
    → fetch s user since limit ≡ take (at_most limit) (newer since (messages_of s user))
unfolding fetch messages_of newer
fetch-newer s user since limit = elim (Option-cases (lookup user s.messages)) [
  | inl e ↦ rw (e, fetch, messages_of) (sym (take_nil (at_most limit)))
  | inr (ms, e) ↦
      rw (e, fetch, messages_of)
        (fetch_loop-take since limit [] ms (omega arith)
          ∙ ap (λ n. take n (newer since ms)) (omega arith))
]
