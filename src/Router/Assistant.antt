-- ===== src/Router/Assistant.antt =====
-- Search and summaries, the handshake, and typing notices.
use Prim.Native.String.{◌++◌ as str_append, slice, len}
use text.Mathlib.Text.{starts_with}
use lan_chat_next.Prelude.{
  ℕ, zero, suc, ◌+◌, String, Bool, not, ◌&&◌, Option, none, some, List, [], ◌∷◌, ◌++◌, map, ℤ, pos,
  positive, lt_int, is_nil, length, ltb, leb, ◌==◌, int_eq, string_eq, nat_eq, if◌then◌else◌, Exec,
  text_of, ◌>>=◌, ◌>>◌, pure, for_each, when, attempt, to_string, stoi, codes, drop, keep,
}
use lan_chat_next.Protocol.{MsgType}
use lan_chat_next.Json.{Value, Object, items, object}
use lan_chat_next.ProtocolJson.{int_field, string_field, ok_response, error_response}
use lan_chat_next.Records.{StoredMessage}
use lan_chat_next.Env.{Env}
use lan_chat_next.Json.Printer.{serialize}
use lan_chat_next.Server.{Server, Handler, on_db, send, deliver_if, session_of, deliver_to_users}
use lan_chat_next.Router.{type_value, messages_to_array, authenticated_user_id}
use mathlib.Core.List.{foldr}
use lan_chat_next.MessageRepository.{search_messages, group_history, private_history}
use lan_chat_next.ChannelRepository.{members}

abbrev joined : List String → String
joined = foldr str_append ""

-- The newest message of a history.
abbrev last_message : StoredMessage → List StoredMessage → StoredMessage
last_message m [] = m
last_message m (n ∷ ms) = last_message n ms

-- `summarizeMessages`; the texts are ASCII where they are cut.
unfoldable pub summarize_messages : List StoredMessage → String
summarize_messages [] = "No recent messages are available for this conversation."
summarize_messages (m ∷ ms) = joined (
    "Summary based on "
    ∷ to_string (pos (length (m ∷ ms)))
    ∷ " recent messages.\n- Time span: "
    ∷ to_string m.timestamp
    ∷ " to "
    ∷ to_string (last_message m ms).timestamp
    ∷ ".\n- Latest topic: "
    ∷ slice (last_message m ms).content 0 180
    ∷ "\n"
    ∷ (if is_nil ms then "" else joined ("- Earlier context: " ∷ slice m.content 0 160 ∷ "\n" ∷ []))
    ∷ "- Suggested follow-up: review unresolved asks and confirm owners in chat."
    ∷ [])

-- The object for the chunk at this offset.
unfoldable pub chunk_object : String → String → ℕ → ℕ → Object
chunk_object request_id summary offset index = object (
    ("type", type_value MsgType.ai_stream_chunk)
    ∷ ("request_id", Value.str request_id)
    ∷ ("chunk_index", Value.int (pos index))
    ∷ ("is_final", Value.bool (leb (len summary) (offset + 80)))
    ∷ ("msg", Value.str (slice summary offset (offset + 80)))
    ∷ [])

-- The loop of `deliverSummaryChunks`, over the offsets 0, 80, 160, …; `fuel` bounds its rounds.
unfoldable pub chunk_objects : ℕ → String → String → ℕ → ℕ → List Object
chunk_objects zero request_id summary offset index = []
chunk_objects (suc fuel) request_id summary offset index =
    let rest = chunk_objects fuel request_id summary (offset + 80) (suc index) in
    if ltb offset (len summary) then chunk_object request_id summary offset index ∷ rest else []

-- `deliverSummaryChunks`
unfoldable pub deliver_summary_chunks : Env → ℕ → String → String → Handler
deliver_summary_chunks env id request_id summary =
    send env id (
      object (
        ("type", type_value MsgType.ai_response)
        ∷ ("request_id", Value.str request_id)
        ∷ ("status", Value.str "start")
        ∷ []))
    >> for_each (chunk_objects (suc (len summary)) request_id summary 0 0) (λ o. send env id o)

abbrev pub group_target : Env → Option ℤ → Exec Server (Option (List StoredMessage))
group_target env none = pure none
group_target env (some group) = attempt (on_db (group_history env group (pos 50)))

abbrev pub direct_target : Env → ℤ → Option ℤ → Exec Server (Option (List StoredMessage))
direct_target env user none = pure none
direct_target env user (some other) = attempt (on_db (private_history env user other (pos 50)))

-- The `try` block of `handleAIRequest`; `none` is that std::stoi threw, or the database did.
unfoldable pub summarize_history : Env → ℤ → String → Exec Server (Option (List StoredMessage))
summarize_history env user query =
    if starts_with query "group:"
    then group_target env (stoi (drop 6 (codes query)))
    else if starts_with query "direct:" && positive user
    then direct_target env user (stoi (drop 7 (codes query)))
    else pure (some [])

abbrev pub summarize_answer : Env → ℕ → String → Option (List StoredMessage) → Handler
summarize_answer env id request_id none =
    send env id (error_response MsgType.ai_response 400 "invalid summarize target")
summarize_answer env id request_id (some history) =
    deliver_summary_chunks env id request_id (summarize_messages history)

-- `handleAIRequest`
unfoldable pub handle_ai_request : Env → ℕ → Object → Handler
handle_ai_request env id request =
    let request_id = string_field request "request_id" "search" in
    let ai_type = string_field request "ai_type" "" in
    let query = string_field request "msg" "" in
    if ai_type == "summarize"
    then (authenticated_user_id id >>= λ user.
        summarize_history env user query >>= λ history. summarize_answer env id request_id history)
    else if not (ai_type == "search")
    then send env id (error_response MsgType.ai_response 501 "unsupported AI request type")
    else (on_db (search_messages env query (int_field request "limit" (pos 50))) >>= λ found.
        send env id (
          object (
            ("type", type_value MsgType.ai_response)
            ∷ ("request_id", Value.str request_id)
            ∷ ("status", Value.str "done")
            ∷ (
              "msg",
              Value.str (
                  text_of (
                    serialize env (
                      Value.obj (
                        object (
                          ("query", Value.str query)
                          ∷ ("messages", messages_to_array found)
                          ∷ []))))),
            )
            ∷ [])))

-- Whether the versions that a client speaks meet those of the server, 1 to 2.
unfoldable pub is_compatible : ℤ → ℤ → Bool
is_compatible version min_version = not (lt_int version (pos 1)) && not (lt_int (pos 2) min_version)

-- `handleProtocolHello`
unfoldable pub handle_protocol_hello : Env → ℕ → Object → Handler
handle_protocol_hello env id request =
    let version = int_field request "version" (pos 1) in
    let min_version = int_field request "min_version" version in
    let compatible = is_compatible version min_version in
    send env id (
      object (
        ("type", type_value MsgType.protocol_hello)
        ∷ ("version", Value.int (pos 2))
        ∷ ("min_version", Value.int (pos 1))
        ∷ ("status", Value.str (if compatible then "ok" else "error"))
        ∷ ((if compatible then [] else ("msg", Value.str "incompatible protocol version") ∷ [])
            ++ (
              "features",
              Value.arr (
                  items (
                    map (λ f. Value.str f)
                      ("message_edit" ∷ "message_delete" ∷ "message_reaction" ∷ "read_receipt"
                        ∷ "file_metadata" ∷ "profile_update" ∷ []))),
            )
              ∷ [])))

-- The targets of a typing notice.
unfoldable pub notify_typing : Env → ℤ → Object → Handler
notify_typing env from request =
    let payload = serialize env (Value.obj request) in
    let to = int_field request "toId" (pos 0) in
    let group = int_field request "groupId" (pos 0) in
    if positive to
    then (session_of to >>= λ target. deliver_if target payload)
    else when (positive group) (
        on_db (members env group) >>= λ users.
        deliver_to_users payload (keep (λ user. not (user == from)) users))

-- `handleSystemBroadcast`
unfoldable pub handle_system_broadcast : Env → ℕ → Object → Handler
handle_system_broadcast env id request =
    if not (string_field request "event" "" == "typing")
    then send env id (ok_response MsgType.system_broadcast "broadcast ignored")
    else (authenticated_user_id id >>= λ from.
        if not (positive from)
        then send env id
            (error_response MsgType.system_broadcast 401 "typing requires authenticated sender")
        else notify_typing env from request)
