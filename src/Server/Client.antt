-- ===== src/Server/Client.antt =====
-- handle_client of dmmr_server.c: the requests of one connection.
use http_dmmr_nginx.Base.{ℕ, zero, suc, Bool, false, List, ◌++◌, Option, none, some, Bytes}
use http_dmmr_nginx.Db.Ops.{BerkeleyDb, bytes_at}
use http_dmmr_nginx.Server.Frame.{Read, refused, framed, legacy, read_frame}
use http_dmmr_nginx.Server.Net.{Recv, Send}
use http_dmmr_nginx.Server.Request.{Env, Cache, process_frame, process_legacy_request}

-- A connection with the cache it is served from: what is to come from it, and what was sent on it.
pub record Client (State : Type 0) : Type 0 where
  pub cache : Cache State
  pub incoming : List Recv
  pub sends : List Send
  pub output : Bytes

-- One turn of the loop, or the whole loop: the connection goes on, is closed, or the behaviour is
-- undefined.
pub data Turn (State : Type 0) : Type 0 where
  more : Client State → Turn State
  closed : Client State → Turn State
  undefined_behaviour : Turn State

module _ {State : Type 0} where
  unfoldable pub answered_frame :
      Client State → (Bool × Bytes × List Send) × Cache State → Turn State
  answered_frame c ((ok, out, rest), cache) =
      more (record c { cache = cache; sends = rest; output = c.output ++ out })

  unfoldable pub answered_legacy : Client State → Option (Bytes × List Send) → Turn State
  answered_legacy c none = undefined_behaviour
  answered_legacy c (some (out, rest)) = more (record c { sends = rest; output = c.output ++ out })

module _ (bdb : BerkeleyDb) (my_node_id : ℕ) where
  open bdb use {State}

  -- The results of the handlers are not looked at.
  unfoldable pub turn_of : Env → Client State → Read × List Recv → Turn State
  turn_of env c (refused code, rest) = closed (record c { incoming = rest })
  turn_of env c (framed frame payload, rest) =
      answered_frame (record c { incoming = rest })
        (process_frame bdb my_node_id env c.cache c.sends frame (bytes_at payload) my_node_id false)
  turn_of env c (legacy opcode key_len payload, rest) =
      answered_legacy (record c { incoming = rest })
        (process_legacy_request bdb env c.cache c.sends opcode key_len payload)

  unfoldable pub turn : Env → Client State → Turn State
  turn env c = turn_of env c (read_frame env.payload_buf c.incoming)

  -- On fuel, one unit for a turn; `env i` is what turn i meets. `more` is a loop that is not over.
  unfoldable pub handle_client : ℕ → (ℕ → Env) → Client State → Turn State
  handle_client zero env c = more c
  handle_client (suc n) env c = elim (turn (env 0) c) [
    | closed c' ↦ closed c'
    | undefined_behaviour ↦ undefined_behaviour
    | more c' ↦ handle_client n (λ i. env (suc i)) c'
  ]
