-- ===== src/Tests/Polling.antt =====
-- stateless/: the theorems at concrete inputs.
use go_wst.Prelude.{◌*◌, ◌≡◌, refl, List, [], ◌∷◌, length, take, drop, arith}
use go_wst.Prelude.Int.{pos}
use go_wst.Prelude.Dict.{lookup, insert, delete}
use go_wst.Protocol.Message.{Message}
use go_wst.Stateless.Store.{MemoryStore, new_memory_store, fetch, messages_of, store, clear}
use go_wst.Stateless.Store.Numbering.{IsNumbered}
use go_wst.Stateless.Store.History.{Call, stores, clears, run, kept, run-IsNumbered}
use go_wst.Stateless.Store.Fetch.{at_most}
use go_wst.Stateless.Store.Polling.{poll, poll-take, store_all, fetch-clear}

abbrev message : Message
message = record {
  id = pos 0;
  timestamp = pos 0;
  kind = "message";
  topic = "news";
  payload = 1 ∷ 2 ∷ [];
}

abbrev history : List Call
history =
    stores (pos 10) "u" message
    ∷ stores (pos 11) "v" message
    ∷ stores (pos 12) "u" message
    ∷ clears "v"
    ∷ stores (pos 13) "u" message
    ∷ []

abbrev used : MemoryStore
used = run new_memory_store history

run-IsNumbered_example : (messages_of used "u" ≡ kept "u" [] history) × IsNumbered used "u"
run-IsNumbered_example = run-IsNumbered history "u" (omega arith)

used-IsNumbered : IsNumbered used "u"
used-IsNumbered = (run-IsNumbered history "u" (omega arith)).1

poll-take_example :
    poll 2 used "u" 1 (pos 1) ≡ take (2 * at_most (pos 1)) (drop 1 (messages_of used "u"))
poll-take_example = poll-take 2 used "u" 1 (pos 1) used-IsNumbered

fetch-clear_example :
    fetch (store_all (pos 20) (clear used "u") "u" (message ∷ message ∷ [])) "u" (pos 3) (pos 5)
    ≡ []
fetch-clear_example =
    fetch-clear (pos 20) used "u" (message ∷ message ∷ []) 3 (pos 5) (omega arith) (omega arith)

three : length (messages_of used "u") ≡ 3
unfolding run store clear messages_of lookup insert delete new_memory_store
three = refl
