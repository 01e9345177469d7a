-- ===== src/Samples/Serving.antt =====
-- The server and its handlers.
use lan_chat_next.Prelude.{◌≡◌, ◌<◌, ◌↔◌, refl, length, err, frame_too_large, arith}
use lan_chat_next.Json.Printer.{serialize}
use lan_chat_next.Json.{Value, Object}
use lan_chat_next.AsyncSession.{new_session}
use lan_chat_next.Protocol.{MsgType}
use lan_chat_next.FrameCodec.{max_frame_bytes}
use lan_chat_next.Database.Rows.{rows_of}
use lan_chat_next.Router.Groups.{handle_search_group}
use lan_chat_next.Router.Dispatch.{dispatch}
use lan_chat_next.Router.Guards.{dispatch_signed_out}
use lan_chat_next.TcpServer.Keeps.Rules.{IsConsistent}
use lan_chat_next.TcpServer.Faults.{search_response, search_group_throws_iff}
use lan_chat_next.Samples.{group_rows, sample_env, sample_server}

sample-IsConsistent : IsConsistent sample_server
sample-IsConsistent = record {
  linked = record { linked = λ user id e. ground arith; bounded = omega arith };
  older = (omega arith, (omega arith, tt));
  started = omega arith;
}

dispatch_signed_out_example :
    (dispatch sample_env 1 Object.end MsgType.message_edit sample_server).1.db ≡ sample_server.db
dispatch_signed_out_example =
    dispatch_signed_out sample_env 1 Object.end MsgType.message_edit sample_server
      (unfold new_session in refl) refl

search_group_throws_iff_example :
    ((handle_search_group sample_env 1 Object.end sample_server).0 ≡ err frame_too_large) ↔ (
      max_frame_bytes
      < length (serialize sample_env (Value.obj (search_response Object.end group_rows))))
search_group_throws_iff_example =
    search_group_throws_iff sample_env 1 Object.end sample_server group_rows
      (unfold rows_of in refl)
