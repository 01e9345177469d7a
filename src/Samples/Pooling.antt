-- ===== src/Samples/Pooling.antt =====
-- The pool of sessions and the presence of users.
use lan_chat_next.Prelude.{
  List, false, ◌&&◌, ◌⊎◌, positive, ◌≡◌, refl, true, none, [], ◌∷◌, pos, any, ◌==◌, int_eq,
  string_eq, arith,
}
use lan_chat_next.SessionPool.{
  Sessions, contains, remove, find_by_user_id, bind_user, unbind_user, add,
}
use lan_chat_next.SessionPool.Binding.{IsLinked}
use lan_chat_next.SessionPool.Lookup.{
  Binds, find_by_user_id-bind_user, find_by_user_id-unbind_user, remove_older_login_loses_user,
  adds, binds, run, empty_pool, run-empty_pool-IsLinked,
}
use lan_chat_next.PresenceManager.{is_online, online_users}
use lan_chat_next.PresenceManager.Laws
use lan_chat_next.PresenceManager.Laws.{Call, onlines, offlines, last_said, online_users-run}
use lan_chat_next.Samples.{sample_pool}

find_by_user_id-bind_user_example :
    (((contains 1 sample_pool.sessions && positive (pos 1001)) ≡ true)
      × Binds 1 (pos 1001) sample_pool (bind_user 1 (pos 1001) sample_pool))
    ⊎ (((contains 1 sample_pool.sessions && positive (pos 1001)) ≡ false)
        × (bind_user 1 (pos 1001) sample_pool ≡ (false, sample_pool)))
find_by_user_id-bind_user_example = find_by_user_id-bind_user 1 (pos 1001) sample_pool

abbrev signed_in : Sessions
signed_in = run (adds 1 ∷ binds 1 (pos 1001) ∷ []) (empty_pool 10)

signed_in-IsLinked : IsLinked signed_in
signed_in-IsLinked = run-empty_pool-IsLinked 10 (adds 1 ∷ binds 1 (pos 1001) ∷ [])

find_by_user_id-unbind_user_example :
    (find_by_user_id (pos 1001) (unbind_user (pos 1001) signed_in) ≡ none)
    × (((unbind_user (pos 1001) signed_in).heap 1).user_id ≡ pos 0)
find_by_user_id-unbind_user_example =
    find_by_user_id-unbind_user (pos 1001) 1 signed_in signed_in-IsLinked
      (unfold add bind_user in refl)

remove_older_login_loses_user_example :
    let q = remove 1 (bind_user 2 (pos 1001) (bind_user 1 (pos 1001) sample_pool).1).1 in
    (find_by_user_id (pos 1001) q ≡ none)
    × (contains 2 q.sessions ≡ true)
    × ((q.heap 2).user_id ≡ pos 1001)
remove_older_login_loses_user_example =
    remove_older_login_loses_user 1 2 (pos 1001) sample_pool refl refl (λ e. omega (arith, e)) refl

-- Signing in twice, and out once.
abbrev calls : List Call
calls = onlines (pos 1) "" ∷ onlines (pos 2) "away" ∷ offlines (pos 1) ∷ []

online_users-run_example :
    (any (λ u. u == pos 2) (online_users (Laws.run calls [])) ≡ last_said (pos 2) calls false)
    × (is_online (pos 2) (Laws.run calls []) ≡ last_said (pos 2) calls false)
online_users-run_example = online_users-run (pos 2) calls
