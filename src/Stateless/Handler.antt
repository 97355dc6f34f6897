-- ===== src/Stateless/Handler.antt =====
-- stateless/server.go, `Handler`: the server behind `protocol.StatelessHandler`.
use go_wst.Prelude.{String, List}
use go_wst.Prelude.Result.{Result}
use go_wst.Protocol.Message.{Message, MessageStore, FetchRequest, SendRequest}
use go_wst.Stateless.Server
use go_wst.Stateless.Server.{Config}

module _ {S : Type 0} (api : MessageStore S) (config : Config) where
  -- The requests are copied, field by field.
  unfoldable pub fetch : S → FetchRequest → Result String (List Message)
  unfolding Server.fetch
  fetch s req = Server.fetch api config s (record {
    user_id = req.user_id;
    since_id = req.since_id;
    limit = req.limit;
    topic = req.topic;
  })

  unfoldable pub send : S → SendRequest → Result String S
  unfolding Server.send
  send s req =
      Server.send api config s
        (record { user_id = req.user_id; topic = req.topic; payload = req.payload })
