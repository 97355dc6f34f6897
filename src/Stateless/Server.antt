-- ===== src/Stateless/Server.antt =====
-- stateless/server.go, `Server`: the polling server over any message store.
pub mod Laws
use go_wst.Prelude.{String, List, if◌then◌else◌}
use go_wst.Prelude.Int.{ℤ, pos, leb_ℤ}
use go_wst.Prelude.Result.{Result}
use go_wst.Protocol.Message.{Message, MessageStore, FetchRequest, SendRequest}

pub record Config : Type 0 where
  pub poll_interval : ℤ
  pub batch_size : ℤ
  pub ack_timeout : ℤ

module _ {S : Type 0} (api : MessageStore S) (config : Config) where
  -- A limit that is not positive is replaced by the batch size.
  unfoldable pub fetch : S → FetchRequest → Result String (List Message)
  fetch s req =
      api.fetch s req.user_id req.since_id
        (if leb_ℤ req.limit (pos 0) then config.batch_size else req.limit)

  unfoldable pub send : S → SendRequest → Result String S
  send s req = api.store s req.user_id (record {
    id = pos 0;
    timestamp = pos 0;
    kind = "message";
    topic = req.topic;
    payload = req.payload;
  })

  unfoldable pub ack : S → String → ℤ → Result String S
  ack s user msg_id = api.ack s user msg_id
