-- ===== src/Tests/WebSocket.antt =====
-- ws/: the theorems at concrete inputs.
use go_wst.Prelude.{
  ℕ, zero, suc, ◌<◌, ◌≡◌, ◌↔◌, refl, sym, ap, ◌∙◌, String, List, [], ◌∷◌, ◌++◌, some, true, false,
  arith, All,
}
use go_wst.Prelude.Int.{pos}
use go_wst.Prelude.Dict.{lookup}
use go_wst.Prelude.Sums.{sum_below}
use go_wst.Prelude.Result.{ok, err}
use go_wst.Ws.Connection.{new_connection}
use go_wst.Ws.Server.{Server, new_server, at_limit}
use go_wst.Ws.Handler.{
  Input, requests, upgrades, authenticates, connects, pumps_end, goes, run, start,
}
use go_wst.Ws.Handler.Count.{live, run-new_server-count}
use go_wst.Ws.Handler.Listed.{is_listed, Names}
use go_wst.Ws.Handler.Mirror.{run-listed_iff}
use go_wst.Ws.Handler.Limit.{all_request, all_upgrade, limit_race}

-- A different text for each number: as many letters as it says.
pub letters : ℕ → String
letters zero = ""
letters (suc n) = String.◌∷◌ "a" (letters n)

size_of : String → ℕ
size_of String.[] = 0
size_of (String.◌∷◌ c s) = suc (size_of s)

size_of-letters : (n : ℕ) → size_of (letters n) ≡ n
unfolding letters size_of
size_of-letters zero = refl
size_of-letters (suc n) = ap suc (size_of-letters n)

pub letters_apart : (c d : ℕ) → letters c ≡ letters d → c ≡ d
letters_apart c d e = sym (size_of-letters c) ∙ ap size_of e ∙ size_of-letters d

abbrev served : Server
served = new_server (pos 5) true (pos 10) (λ _. false) (λ _. new_connection "" (pos 10))

abbrev schedule : List (ℕ × Input)
schedule =
    (0, requests)
    ∷ (1, requests)
    ∷ (1, upgrades true (letters 1))
    ∷ (0, upgrades true (letters 0))
    ∷ (0, authenticates (ok "u"))
    ∷ (1, authenticates (err "no"))
    ∷ (0, goes)
    ∷ (0, connects true)
    ∷ (0, pumps_end)
    ∷ (0, goes)
    ∷ []

below : All (λ e. e.0 < 2) schedule
below = (
  omega arith,
  (
    omega arith,
    (
      omega arith,
      (
        omega arith,
        (
          omega arith,
          (omega arith, (omega arith, (omega arith, (omega arith, (omega arith, tt))))),
        ),
      ),
    ),
  ),
)

named : All (Names letters) schedule
named = (tt, (tt, (refl, (refl, (tt, (tt, (tt, (tt, (tt, (tt, tt))))))))))

run-new_server-count_example :
    (run schedule (start served)).server.conn_count
    ≡ pos (sum_below 2 (λ j. live ((run schedule (start served)).phase j)))
run-new_server-count_example =
    run-new_server-count 2 schedule (pos 5) (pos 10) true (λ _. false)
      (λ _. new_connection "" (pos 10)) (omega arith) below

run-listed_iff_example :
    (lookup (letters 0) (run schedule (start served)).server.connections ≡ some 0)
    ↔ ((is_listed ((run schedule (start served)).phase 0) ≡ true) × (letters 0 ≡ letters 0))
run-listed_iff_example =
    run-listed_iff letters letters_apart schedule (pos 5) (pos 10) true (λ _. false)
      (λ _. new_connection "" (pos 10)) (letters 0) 0 named

free : at_limit served ≡ false
unfolding new_server at_limit
free = refl

limit_race_example :
    (run (all_request 9 0 ++ all_upgrade "a" 9 0) (start served)).server.conn_count ≡ pos 9
unfolding new_server
limit_race_example = limit_race 9 "a" (start served) free refl (omega arith) (λ j. refl)
