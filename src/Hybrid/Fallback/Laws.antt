-- ===== src/Hybrid/Fallback/Laws.antt =====
-- hybrid/fallback.go: when WebTransport is chosen, and what the manager remembers of a client over
-- any sequence of its operations.
use go_wst.Prelude.{
  ℕ, ◌+◌, ◌≤◌, ◌<◌, ◌≡◌, ◌↔◌, ◌⊎◌, String, str_eq, eq_iff, List, [], ◌∷◌, true, false,
  if◌then◌else◌, arith, length,
}
use go_wst.Prelude.Int.{pos, inc64, leb_ℤ, max_int64, inc64-pos}
use go_wst.Prelude.Dict.{lookup-insert, lookup-delete}
use go_wst.Protocol.Auth.{protocol_web_socket, protocol_web_transport}
use go_wst.Hybrid.Config.{ClientHello, protocol_auto}
use go_wst.Hybrid.Fallback.{
  FallbackManager, count_of, select_auto_protocol, select_protocol, record_fallback,
  record_connection, reset_fallback_count,
}

-- A call of `RecordFallback`, `RecordConnection` or `ResetFallbackCount`.
pub data Call : Type 0 where
  falls_back : String → String → Call
  connects : String → Call
  resets : String → Call

unfoldable pub apply : Call → FallbackManager → FallbackManager
unfolding record_fallback record_connection reset_fallback_count
apply (falls_back client from) m = record_fallback client from m
apply (connects proto) m = record_connection proto m
apply (resets client) m = reset_fallback_count client m

unfoldable pub run : List Call → FallbackManager → FallbackManager
unfolding apply
run [] m = m
run (c ∷ cs) m = run cs (apply c m)

-- The fallbacks of a client since its last reset, on top of `k`.
unfoldable pub failures : String → ℕ → List Call → ℕ
failures client k [] = k
failures client k (falls_back d from ∷ cs) =
    failures client (if str_eq d client then k + 1 else k) cs
failures client k (connects proto ∷ cs) = failures client k cs
failures client k (resets d ∷ cs) = failures client (if str_eq d client then 0 else k) cs

count_of-falls_back :
    (client d from : String) (m : FallbackManager) (k : ℕ)
    → k < max_int64
    → count_of client m.fallback_count ≡ pos k
    → count_of client (record_fallback d from m).fallback_count
      ≡ pos (if str_eq d client then k + 1 else k)
unfolding count_of record_fallback
count_of-falls_back client d from m k h e = ground (
  arith,
  eq_iff d client,
  lookup-insert d client (inc64 (count_of d m.fallback_count)) m.fallback_count,
  inc64-pos k h,
)

count_of-resets :
    (client d : String) (m : FallbackManager) (k : ℕ)
    → count_of client m.fallback_count ≡ pos k
    → count_of client (reset_fallback_count d m).fallback_count
      ≡ pos (if str_eq d client then 0 else k)
unfolding count_of reset_fallback_count
count_of-resets client d m k e = ground (arith, lookup-delete d client m.fallback_count)

-- After any calls of `RecordFallback`, `RecordConnection` and `ResetFallbackCount`, fewer than the
-- integers count, the manager holds for each client the number of its fallbacks since its last
-- reset; the calls for other clients do not count. `CleanupStaleClients`, which forgets the counts of
-- all clients where there are more than 10000, is not among the calls.
pub count_of-run :
    (client : String) (cs : List Call) (m : FallbackManager) (k : ℕ)
    → k + length cs ≤ max_int64
    → count_of client m.fallback_count ≡ pos k
    → count_of client (run cs m).fallback_count ≡ pos (failures client k cs)
unfolding run failures
count_of-run client [] m k h e = e
count_of-run client (falls_back d from ∷ cs) m k h e =
    count_of-run client cs _ _ (ground arith)
      (count_of-falls_back client d from m k (omega arith) e)
count_of-run client (connects proto ∷ cs) m k h e = count_of-run client cs _ k (omega arith) e
count_of-run client (resets d ∷ cs) m k h e =
    count_of-run client cs _ _ (ground arith) (count_of-resets client d m k e)

-- WebTransport is chosen just where the client supports it and either the configuration forces it,
-- or it leaves the choice, the client has failed fewer times than the limit and there is a server.
pub select_protocol_iff :
    (m : FallbackManager) (hello : ClientHello)
    → (select_protocol m hello ≡ protocol_web_transport) ↔ (
        (hello.supports_wt ≡ true)
        × ((m.conf.protocol ≡ protocol_web_transport)
            ⊎ ((m.conf.protocol ≡ protocol_auto)
                × (m.has_wt_server ≡ true)
                × (leb_ℤ m.conf.max_retries (count_of hello.client_id m.fallback_count) ≡ false))))
unfolding select_protocol select_auto_protocol
select_protocol_iff m hello = ground (
  arith,
  eq_iff m.conf.protocol protocol_web_socket,
  eq_iff m.conf.protocol protocol_web_transport,
  eq_iff m.conf.protocol protocol_auto,
  eq_iff protocol_web_socket protocol_web_transport,
  eq_iff protocol_web_socket protocol_auto,
  eq_iff protocol_web_transport protocol_auto,
)
