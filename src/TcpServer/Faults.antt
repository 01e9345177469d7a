-- ===== src/TcpServer/Faults.antt =====
-- A handler that throws ends the server: nothing between it and `run` catches.
use lan_chat_next.Prelude.{
  ℕ, ◌<◌, ◌≡◌, ◌↔◌, ◌||◌, List, [], ◌∷◌, map, pos, keep, length, ok, err, frame_too_large, has_text,
  ◌==◌, string_eq,
}
use lan_chat_next.Protocol.{MsgType}
use lan_chat_next.Json.{Value, Object, object, items}
use lan_chat_next.ProtocolJson.{string_field, int_field}
use lan_chat_next.Env.{Env}
use lan_chat_next.Json.Printer.{serialize}
use lan_chat_next.RowFields.{row_string}
use lan_chat_next.FrameCodec.{max_frame_bytes}
use lan_chat_next.Database.{Row}
use lan_chat_next.Database.Rows.{rows_of, query_lem}
use lan_chat_next.ChannelRepository.{channel_from_row, limit_groups, search_groups}
use lan_chat_next.Server.{Server}
use lan_chat_next.Server.Delivery.{deliver_to_throws_iff}
use lan_chat_next.Router.{type_value, group_to_json}
use lan_chat_next.Router.Groups.{handle_search_group}

-- The answer to a search for groups among these rows.
abbrev pub search_response : Object → List Row → Object
search_response request rows =
    let keyword = string_field request "name" "" in
    let found = keep (λ row. keyword == "" || has_text (row_string row "name" "") keyword) rows in
    object (
      ("type", type_value MsgType.search_group_return)
      ∷ ("status", Value.str "ok")
      ∷ (
        "groups",
        Value.arr (
            items (
              map (λ g. Value.obj (group_to_json g))
                (limit_groups (int_field request "limit" (pos 20)) (map channel_from_row found)))),
      )
      ∷ [])

-- Where the table of groups has these rows, the handler of a search, of any session, throws exactly
-- if its answer is of more than MaxFrameBytes bytes.
pub search_group_throws_iff :
    (env : Env) (id : ℕ) (request : Object) (s : Server) (rows : List Row)
    → rows_of env "groups" s.db ≡ ok rows
    → ((handle_search_group env id request s).0 ≡ err frame_too_large)
      ↔ (max_frame_bytes < length (serialize env (Value.obj (search_response request rows))))
unfolding handle_search_group search_groups
search_group_throws_iff env id request s rows have =
    rw
      (query_lem env "groups"
        (λ row.
          string_field request "name" "" == ""
          || has_text (row_string row "name" "") (string_field request "name" ""))
        s.db have)
      (deliver_to_throws_iff id _ _)
