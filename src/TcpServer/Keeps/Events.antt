-- ===== src/TcpServer/Keeps/Events.antt =====
-- The events of src/server/src/TcpServer.cpp and the invariant of the sessions.
use lan_chat_next.Prelude.{
  ℕ, suc, ◌-◌, ◌≤◌, ◌<◌, ◌≡◌, refl, Bool, true, false, Option, none, some, List, [], ◌∷◌, ◌++◌, ℤ,
  All, if◌then◌else◌, ◌>>◌, arith, nat_eq,
}
use lan_chat_next.Records.{UserInfo}
use lan_chat_next.Env.{Env, Bytes}
use lan_chat_next.AsyncSession.{
  Session, new_session, start, close, consume_rate_limit_token, heartbeat_received, write_done,
  write_failed, cap_accumulator,
}
use lan_chat_next.SessionPool.{Sessions, contains, update_session, add}
use lan_chat_next.SessionPool.Binding.{IsLinked, add-IsLinked}
use lan_chat_next.Server.{Server}
use lan_chat_next.TcpServer.{
  broadcast, broadcast_offline, mark_offline_and_broadcast, remove_session, on_session, take_token,
  on_message, append_bytes, keep_rest, read_done, start_accept, accept_done, sweep, Event, accepted,
  read, read_error, wrote, write_error, timer, handle, run_events, run,
}
use lan_chat_next.TcpServer.Keeps.Rules.{IsConsistent}
use lan_chat_next.TcpServer.Keeps.Actions.{Keeps, Keeps-then, Keeps-on_session}
use lan_chat_next.TcpServer.Keeps.Handlers.{handler_rules}
use lan_chat_next.TcpServer.Keeps.Dispatching.{Keeps-route}

Keeps-broadcast : (json : Bytes) (exclude : ℕ) → Keeps (broadcast json exclude)
unfolding broadcast
Keeps-broadcast json exclude = search handler_rules depth 24

Keeps-broadcast_offline :
    (env : Env) (user : ℤ) (info : Option UserInfo) → Keeps (broadcast_offline env user info)
Keeps-broadcast_offline env user none = search handler_rules depth 24
Keeps-broadcast_offline env user (some info) = Keeps-broadcast _ 0

Keeps-remove_session : (env : Env) (id : ℕ) → Keeps (remove_session env id)
unfolding remove_session mark_offline_and_broadcast
Keeps-remove_session env id = search (handler_rules, Keeps-broadcast_offline) depth 24

-- The changes of a session that leave its user.
Keeps-close : (id : ℕ) → Keeps (on_session id close)
unfolding close
Keeps-close id = Keeps-on_session id close (λ x. refl)

Keeps-start : (now id : ℕ) → Keeps (on_session id (start now))
unfolding start
Keeps-start now id = Keeps-on_session id (start now) (λ x. refl)

Keeps-heartbeat_received : (now id : ℕ) → Keeps (on_session id (heartbeat_received now))
unfolding heartbeat_received
Keeps-heartbeat_received now id = Keeps-on_session id (heartbeat_received now) (λ x. refl)

user_id-consume : (now : ℕ) (x : Session) → (consume_rate_limit_token now x).1.user_id ≡ x.user_id
unfolding consume_rate_limit_token
user_id-consume now x = ground arith

Keeps-consume : (now id : ℕ) → Keeps (on_session id (λ x. (consume_rate_limit_token now x).1))
Keeps-consume now id = Keeps-on_session id _ (user_id-consume now)

user_id-write_done : (n : ℕ) (x : Session) → (write_done n x).user_id ≡ x.user_id
unfolding write_done
user_id-write_done n x = ground arith

Keeps-write_done : (id n : ℕ) → Keeps (on_session id (write_done n))
Keeps-write_done id n = Keeps-on_session id _ (user_id-write_done n)

Keeps-write_failed : (id : ℕ) → Keeps (on_session id write_failed)
unfolding write_failed
Keeps-write_failed id = Keeps-on_session id write_failed (λ x. refl)

user_id-cap_accumulator : (x : Session) → (cap_accumulator x).user_id ≡ x.user_id
unfolding cap_accumulator
user_id-cap_accumulator x = ground arith

Keeps-cap_accumulator : (id : ℕ) → Keeps (on_session id cap_accumulator)
Keeps-cap_accumulator id = Keeps-on_session id cap_accumulator user_id-cap_accumulator

Keeps-append_bytes : (id : ℕ) (bytes : Bytes) → Keeps (on_session id (append_bytes bytes))
Keeps-append_bytes id bytes = Keeps-on_session id (append_bytes bytes) (λ x. refl)

Keeps-keep_rest : (id : ℕ) → Keeps (on_session id keep_rest)
Keeps-keep_rest id = Keeps-on_session id keep_rest (λ x. refl)

ruleset event_rules = (
  handler_rules, Keeps-route, Keeps-remove_session, Keeps-close, Keeps-start,
  Keeps-heartbeat_received, Keeps-consume, Keeps-cap_accumulator, Keeps-append_bytes,
  Keeps-keep_rest,
)

Keeps-take_token : (env : Env) (id : ℕ) → Keeps (take_token env id)
unfolding take_token
Keeps-take_token env id = search event_rules depth 24

Keeps-on_message : (env : Env) (id : ℕ) (json : Bytes) → Keeps (on_message env id json)
unfolding on_message
Keeps-on_message env id json = search (event_rules, Keeps-take_token) depth 24

Keeps-read_done : (env : Env) (id : ℕ) (bytes : Bytes) → Keeps (read_done env id bytes)
unfolding read_done
Keeps-read_done env id bytes = search (event_rules, Keeps-on_message) depth 24

Keeps-sweep : (env : Env) → Keeps (sweep env)
unfolding sweep
Keeps-sweep env = search event_rules depth 24

All-weaken : (n : ℕ) (ids : List ℕ) → All (λ id. id < n) ids → All (λ id. id < suc n) ids
All-weaken n [] h = tt
All-weaken n (id ∷ ids) h = (omega (arith, h.0), All-weaken n ids h.1)

All-append :
    (n id : ℕ) (ids : List ℕ) → All (λ k. k < n) ids → id < n → All (λ k. k < n) (ids ++ id ∷ [])
All-append n id [] h lt = (lt, tt)
All-append n id (k ∷ ids) h lt = (h.0, All-append n id ids h.1 lt)

-- No session of the pool is the one that a number from `n` on gets.
contains-fresh : (n id : ℕ) (ids : List ℕ) → All (λ k. k < n) ids → n ≤ id → contains id ids ≡ false
contains-fresh n id [] h le = refl
contains-fresh n id (k ∷ ids) h le = ground (arith, contains-fresh n id ids h.1 le, h.0)

-- The object of the next session is not in the pool yet, so that no user is mapped to it.
new_object-IsLinked :
    (id now : ℕ) (p : Sessions)
    → contains id p.sessions ≡ false
    → IsLinked p
    → IsLinked (update_session id (λ x. new_session id now) p)
unfolding update_session
new_object-IsLinked id now p fresh v = record {
  linked = λ user k e. ground (arith, v.linked user k, fresh);
  bounded = v.bounded;
}

Keeps-start_accept : (env : Env) → Keeps (start_accept env)
unfolding start_accept update_session
Keeps-start_accept env = record {
  at = λ s h. record {
    linked =
        new_object-IsLinked s.next_id env.steady_now s.sessions
          (contains-fresh s.next_id s.next_id s.sessions.sessions h.older (omega arith)) h.linked;
    older = All-weaken s.next_id s.sessions.sessions h.older;
    started = omega arith;
  };
}

older-add :
    (n id : ℕ) (p : Sessions)
    → All (λ k. k < n) p.sessions
    → id < n
    → All (λ k. k < n) (add id p).1.sessions
unfolding add
older-add n id p h lt = ground (arith, h, All-append n id p.sessions h lt)

keeps_add :
    (id : ℕ) (s : Server)
    → id < s.next_id
    → IsConsistent s
    → IsConsistent (record s { sessions = (add id s.sessions).1 })
keeps_add id s lt h = record {
  linked = add-IsLinked id s.sessions h.linked;
  older = older-add s.next_id id s.sessions h.older lt;
  started = h.started;
}

-- What an accepted session that was or was not added goes on with.
Keeps-after_add :
    (env : Env) (id : ℕ) (added : Bool)
    → Keeps (
        (if added then on_session id (start env.steady_now) else on_session id close)
        >> start_accept env)
Keeps-after_add env id added = search (event_rules, Keeps-start_accept) depth 24

keeps_accept_done :
    (env : Env) (id : ℕ) (failed : Bool) (s : Server)
    → id < s.next_id
    → IsConsistent s
    → IsConsistent (accept_done env id failed s).1
unfolding accept_done
keeps_accept_done env id true s lt h = (Keeps-start_accept env).at s h
keeps_accept_done env id false s lt h =
    (Keeps-after_add env id (add id s.sessions).0).at
      (record s { sessions = (add id s.sessions).1 }) (keeps_add id s lt h)

pub Keeps-handle : (env : Env) (event : Event) → Keeps (handle env event)
unfolding handle
Keeps-handle env (accepted failed) = record {
  at = λ s h. keeps_accept_done env (s.next_id - 1) failed s (omega (arith, h.started)) h;
}
Keeps-handle env (read id bytes) = Keeps-read_done env id bytes
Keeps-handle env (read_error id) = Keeps-remove_session env id
Keeps-handle env (wrote id bytes) = Keeps-write_done id bytes
Keeps-handle env (write_error id) = Keeps-write_failed id
Keeps-handle env timer = Keeps-sweep env

Keeps-run_events : (events : List (Env × Event)) → Keeps (run_events events)
unfolding run_events
Keeps-run_events [] = search handler_rules
Keeps-run_events ((env, event) ∷ rest) =
    Keeps-then (handle env event) (run_events rest) (Keeps-handle env event) (Keeps-run_events rest)

-- If the sessions are consistent, they are after a run of the server over any events, also where a
-- handler throws: each user is mapped to a session of the pool that is signed in as this user, the
-- pool is within its limit, and each session of it is older than the next one.
pub run-IsConsistent :
    (env : Env) (events : List (Env × Event)) (s : Server)
    → IsConsistent s
    → IsConsistent (run env events s).1
unfolding run
run-IsConsistent env events s h =
    (Keeps-then (start_accept env) (run_events events) (Keeps-start_accept env)
        (Keeps-run_events events)).at
      s h
