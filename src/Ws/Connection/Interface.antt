-- ===== src/Ws/Connection/Interface.antt =====
-- ws/connection.go: the connections of a server as an implementation of the interface `Connection`.
use go_wst.Prelude.{ℕ, ◌≡◌, refl}
use go_wst.Prelude.Dict.{Distinct, insert-Distinct}
use go_wst.Protocol.Message.{Bytes}
use go_wst.Protocol.Connection.{Connections, IsLawful}
use go_wst.Protocol.Wrapper.{
  Wrapper, IsWrapper, wrapped_conns, wrapped_conns-IsLawful, wrapped_conns-valid,
}
use go_wst.Ws.Connection.{
  Connection, Choice, context_done, connection_done, buffered, user_id, set_user_id, metadata,
  set_metadata, send,
}
use go_wst.Ws.Connection.Laws.{metadata-set_metadata}

keys_kept :
    (choice : Choice) (msg : Bytes) (c : Connection)
    → ((send choice msg c).0.metadata_map ≡ c.metadata_map)
      × ((send choice msg c).0.user_id_value ≡ c.user_id_value)
unfolding send
keys_kept context_done msg c = (refl, refl)
keys_kept connection_done msg c = (refl, refl)
keys_kept buffered msg c = (refl, refl)

-- `choose` is the case of `Send` that runs.
module _ (choose : ℕ → Connection → Choice) where
  unfoldable pub web_socket_wrapper : Wrapper Connection
  unfolding user_id set_user_id metadata set_metadata send
  web_socket_wrapper = record {
    user_id = λ c. user_id c;
    set_user_id = λ u c. set_user_id u c;
    metadata = λ c. metadata c;
    set_metadata = λ k x c. set_metadata k x c;
    send = λ p msg c. send (choose p c) msg c;
  }

  web_socket_wrapper-IsWrapper : IsWrapper web_socket_wrapper
  unfolding web_socket_wrapper user_id set_user_id metadata set_metadata
  web_socket_wrapper-IsWrapper = record {
    IsValid = λ c. Distinct c.metadata_map;
    set_user_id-IsValid = λ u c v. v;
    set_metadata-IsValid = λ k x c v. insert-Distinct k x c.metadata_map v;
    send-IsValid = λ p msg c v. rw ((keys_kept (choose p c) msg c).0) v;
    user_id-set_user_id = λ u c. refl;
    user_id-set_metadata = λ k x c. refl;
    user_id-send = λ p msg c. rw (user_id, (keys_kept (choose p c) msg c).1) refl;
    metadata-set_user_id = λ u c. refl;
    metadata-set_metadata = λ k j x c v. metadata-set_metadata k j x c v;
    metadata-send = λ p msg c. rw (metadata, (keys_kept (choose p c) msg c).0) refl;
  }

  abbrev pub web_socket_conns : Connections (ℕ → Connection)
  web_socket_conns = wrapped_conns web_socket_wrapper

  pub web_socket_conns-IsLawful : IsLawful web_socket_conns
  web_socket_conns-IsLawful = wrapped_conns-IsLawful web_socket_wrapper web_socket_wrapper-IsWrapper

  -- The states that are valid: each connection's metadata holds a key once.
  pub web_socket_conns-valid :
      (s : ℕ → Connection)
      → ((c : ℕ) → Distinct (s c).metadata_map)
      → web_socket_conns-IsLawful.IsValid s
  unfolding web_socket_conns-IsLawful web_socket_wrapper-IsWrapper
  web_socket_conns-valid s v =
      wrapped_conns-valid web_socket_wrapper web_socket_wrapper-IsWrapper s v
