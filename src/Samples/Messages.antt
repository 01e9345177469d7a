-- ===== src/Samples/Messages.antt =====
-- Messages of the table, and a database that is opened again.
use lan_chat_next.Prelude.{
  String, ◌≡◌, refl, true, false, not, ◌&&◌, List, [], ◌∷◌, ◌++◌, map, pos, keep, ◌==◌, int_eq,
  string_eq, ok,
}
use lan_chat_next.Records.{StoredMessage}
use lan_chat_next.Database.Rows.{rows_of, Writes}
use lan_chat_next.MessageRepository.{
  to_row, from_row, save_private, edit, soft_delete, add_reaction, mark_read, private_history,
  group_history,
}
use lan_chat_next.MessageRepository.Saving.{IsNew, new_id, private_message, save_private_lem}
use lan_chat_next.MessageRepository.Editing.{
  Changes, is_own_message, edited_message, deleted_message, with_reaction, encoded_reaction,
  edit-Changes, soft_delete-Changes, edit-soft_delete, add_reaction-Changes, mark_read-Changes,
}
use lan_chat_next.MessageRepository.History.{
  IsHistory, is_between_users, private_history-IsHistory, group_history-IsHistory,
}
use lan_chat_next.Samples.{message_rows, sample_env, sample_db}
use lan_chat_next.Samples.Sorting.{sorted-Sorts}

messages_of : rows_of sample_env "messages" sample_db ≡ ok message_rows
unfolding rows_of
messages_of = refl

abbrev hi : String
hi = "hi"

abbrev plus_one : String
plus_one = "+1"

edit-Changes_example :
    Changes sample_env message_rows
      (λ m. is_own_message (pos 7) (pos 1001) m && not (hi == ""))
      (edited_message sample_env hi)
      sample_db
      (edit sample_env (pos 7) (pos 1001) hi sample_db)
edit-Changes_example =
    edit-Changes sample_env (pos 7) (pos 1001) hi sample_db message_rows messages_of

soft_delete-Changes_example :
    Changes sample_env message_rows
      (is_own_message (pos 7) (pos 1001))
      (deleted_message sample_env)
      sample_db
      (soft_delete sample_env (pos 7) (pos 1001) sample_db)
soft_delete-Changes_example =
    soft_delete-Changes sample_env (pos 7) (pos 1001) sample_db message_rows messages_of

edit-soft_delete_example :
    let db' = (soft_delete sample_env (pos 7) (pos 1001) sample_db).1 in
    ((edit sample_env (pos 7) (pos 1001) hi db').0 ≡ ok false)
    × ((soft_delete sample_env (pos 7) (pos 1001) db').0 ≡ ok false)
edit-soft_delete_example =
    edit-soft_delete sample_env (pos 7) (pos 1001) hi sample_db message_rows messages_of

add_reaction-Changes_example :
    ((plus_one == "") ≡ true
      → add_reaction sample_env (pos 7) (pos 1002) plus_one sample_db ≡ (ok false, sample_db))
    × ((plus_one == "") ≡ false
        → Changes sample_env message_rows
            (λ m. m.msg_id == pos 7 && not m.deleted)
            (λ m. record m {
              reactions = with_reaction (encoded_reaction (pos 1002) plus_one) m.reactions;
            })
            sample_db
            (add_reaction sample_env (pos 7) (pos 1002) plus_one sample_db))
add_reaction-Changes_example =
    add_reaction-Changes sample_env (pos 7) (pos 1002) plus_one sample_db message_rows messages_of

mark_read-Changes_example :
    Changes sample_env message_rows
      (λ m. m.msg_id == pos 7)
      (λ m. record m { read = true })
      sample_db
      (mark_read sample_env (pos 7) (pos 1002) sample_db)
mark_read-Changes_example =
    mark_read-Changes sample_env (pos 7) (pos 1002) sample_db message_rows messages_of

private_history-IsHistory_example :
    (r : List StoredMessage) × ((private_history sample_env
        (pos 1001)
        (pos 1002)
        (pos 10)
        sample_db).0
      ≡ ok r)
    × IsHistory
        (keep (is_between_users (pos 1001) (pos 1002)) (map from_row message_rows))
        (pos 10)
        r
    × ((other : String)
        → rows_of sample_env other
            (private_history sample_env (pos 1001) (pos 1002) (pos 10) sample_db).1
          ≡ rows_of sample_env other sample_db)
private_history-IsHistory_example =
    private_history-IsHistory sample_env (pos 1001) (pos 1002) (pos 10) sample_db message_rows
      sorted-Sorts messages_of

group_history-IsHistory_example :
    (r : List StoredMessage) × ((group_history sample_env (pos 2001) (pos 10) sample_db).0 ≡ ok r)
    × IsHistory (keep (λ m. m.group_id == pos 2001) (map from_row message_rows)) (pos 10) r
    × ((other : String)
        → rows_of sample_env other (group_history sample_env (pos 2001) (pos 10) sample_db).1
          ≡ rows_of sample_env other sample_db)
group_history-IsHistory_example =
    group_history-IsHistory sample_env (pos 2001) (pos 10) sample_db message_rows sorted-Sorts
      messages_of

save_private_lem_example :
    let m = private_message sample_env (new_id message_rows) (pos 1001) (pos 1002) hi "" false in
    ((save_private sample_env (pos 1001) (pos 1002) hi "" false sample_db).0 ≡ ok m)
    × IsNew (new_id message_rows) message_rows
    × Writes sample_env "messages"
        (message_rows ++ to_row m ∷ [])
        sample_db
        (save_private sample_env (pos 1001) (pos 1002) hi "" false sample_db).1
save_private_lem_example =
    save_private_lem sample_env (pos 1001) (pos 1002) hi "" false sample_db messages_of
