-- ===== src/Protocol/Server/Uses.antt =====
-- internal/protocol/connection.go: what a program that uses a `Server` can rely on.
use go_wst.Prelude.{ℕ, ◌≡◌, refl, sym, ap, ◌∙◌, String, List, [], ◌∷◌, ◌++◌, Option, none, some}
use go_wst.Protocol.Server.{Servers, IsServer, sent, first_of, or_missing}

++-none : (cs : List ℕ) → cs ++ [] ≡ cs
++-none [] = refl
++-none (c ∷ cs) = ap (λ ds. c ∷ ds) (++-none cs)

abbrev pub found_or : {S E : Type 0} → E → S → Option ℕ → S × Option E → S × Option E
found_or not_found st none r = (st, some not_found)
found_or not_found st (some c) r = r

missing_first :
    {S E : Type 0} (not_found : E) (st : S) (cs : List ℕ) (r : S × Option E)
    → or_missing not_found st cs r ≡ found_or not_found st (first_of cs) r
missing_first not_found st [] r = refl
missing_first not_found st (c ∷ cs) r = refl

-- On any server that keeps the interface's promises, in a valid state, `SendTo` is `BroadcastTo`
-- that one user, unless `GetConnection` finds no connection: then it sends nothing, and answers that
-- the user is not found.
pub broadcast_to_one :
    {V S E : Type 0} (ops : Servers V S E) (send : ℕ → S → S × Option E) (not_found : E)
    (by_id : V → String → Option ℕ) (by_user : V → String → String → Option ℕ)
    (IsValid : V → Type 0) (server : IsServer ops send not_found by_id by_user IsValid) (v : V)
    (u : String) (st : S)
    → IsValid v
    → ops.send_to v u st
      ≡ found_or not_found st (ops.get_connection v u) (ops.broadcast_to v (u ∷ []) st)
broadcast_to_one ops send not_found by_id by_user IsValid server v u st valid =
    server.send_to_lem v u st valid
    ∙ missing_first not_found st (server.of_user v u) (sent send (server.of_user v u) st)
    ∙ ap (λ r. found_or not_found st (first_of (server.of_user v u)) r)
        (sym (
          server.broadcast_to_lem v (u ∷ []) st
          ∙ ap (λ cs. sent send cs st) (++-none (server.of_user v u))))
    ∙ ap (λ o. found_or not_found st o (ops.broadcast_to v (u ∷ []) st))
        (sym (server.get_connection_lem v u))
