-- ===== src/Server/Control.antt =====
-- The queue of commands in dmmr_server.c: process_control_cmd, the control thread and the broadcast
-- workers.
use http_dmmr_nginx.Base.{ℕ, Bool, List, [], ◌∷◌, Option, none, some, if◌then◌else◌, length, leb}
use http_dmmr_nginx.Cluster.Outbox.{PeerConn, broadcast_sync}
use http_dmmr_nginx.Server.Request.{Cmd}

-- HIGH_WATERMARK
abbrev pub high_watermark : ℕ
high_watermark = 50

-- A command is always a broadcast; `now` is the time in seconds at which it is processed.
unfoldable pub process_control_cmd : ℕ → (PeerConn → Bool) → ℕ → Cmd → List PeerConn → List PeerConn
process_control_cmd my_node_id room now cmd peers =
    broadcast_sync my_node_id room now (some cmd.key) cmd.key_len cmd.value cmd.value_len cmd.ts
      cmd.node_id cmd.expire_at cmd.flags peers

-- The command at the front, and the queue behind it.
unfoldable pub take_cmd : List Cmd → Option Cmd × List Cmd
take_cmd [] = (none, [])
take_cmd (cmd ∷ rest) = (some cmd, rest)

unfoldable pub processed :
    ℕ → (PeerConn → Bool) → ℕ → Option Cmd × List Cmd → List PeerConn → List Cmd × List PeerConn
processed my_node_id room now (none, queue) peers = (queue, peers)
processed my_node_id room now (some cmd, queue) peers =
    (queue, process_control_cmd my_node_id room now cmd peers)

-- What the control thread does with the queue in one turn of its loop.
unfoldable pub control_turn :
    ℕ → (PeerConn → Bool) → ℕ → List Cmd → List PeerConn → List Cmd × List PeerConn
control_turn my_node_id room now queue peers = processed my_node_id room now (take_cmd queue) peers

-- A turn of a broadcast worker, which waits while the queue is short.
unfoldable pub broadcast_turn :
    ℕ → (PeerConn → Bool) → ℕ → List Cmd → List PeerConn → List Cmd × List PeerConn
broadcast_turn my_node_id room now queue peers =
    if leb (length queue) high_watermark
    then (queue, peers)
    else processed my_node_id room now (take_cmd queue) peers
