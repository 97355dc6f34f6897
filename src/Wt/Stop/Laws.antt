-- ===== src/Wt/Stop/Laws.antt =====
-- wt/server.go: what `Stop` leaves of a server that `NewServer` made and that has been at work.
use go_wst.Wt.Connection.{Connection}
use go_wst.Wt.Server.{Server}
use go_wst.Wt.Server
