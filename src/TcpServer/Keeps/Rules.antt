-- ===== src/TcpServer/Keeps/Rules.antt =====
-- The invariant of the sessions and, for each way to build a handler, a rule that it keeps it.
use lan_chat_next.Prelude.{
  ℕ, ◌<◌, ◌≡◌, refl, Bool, true, false, not, Option, none, some, List, [], ◌∷◌, ℤ, keep, All, ◌==◌,
  int_eq, nat_eq, if◌then◌else◌, Exec, Result, ok, err, proceed, for_each, arith,
}
use lan_chat_next.Env.{Bytes}
use lan_chat_next.Database.{Database}
use lan_chat_next.PresenceManager.{Presence}
use lan_chat_next.AsyncSession.{Session, deliver}
use lan_chat_next.SessionPool.{Sessions, update_session, remove, bind_user, unbind_user}
use lan_chat_next.SessionPool.Binding.{
  IsLinked, remove-IsLinked, bind_user-IsLinked, unbind_user-IsLinked,
}
use lan_chat_next.Server.{Server, Handler, deliver_to, deliver_if, deliver_to_users}

-- Users are mapped to sessions of the pool that are signed in as them, and every session of the
-- pool is older than the next one.
pub record IsConsistent (s : Server) : Type 0 where
  pub linked : IsLinked s.sessions
  pub older : All (λ id. id < s.next_id) s.sessions.sessions
  pub started : 0 < s.next_id

pub keeps_proceed :
    {A B : Type 0} (r : Result A) (s : Server) (f : A → Exec Server B)
    → IsConsistent s
    → ((a : A) → IsConsistent (f a s).1)
    → IsConsistent (proceed r s f).1
keeps_proceed (ok a) s f h k = k a
keeps_proceed (err c) s f h k = h

pub keeps_db : (s : Server) (d : Database) → IsConsistent s → IsConsistent (record s { db = d })
keeps_db s d h = record { linked = h.linked; older = h.older; started = h.started }

pub keeps_presence :
    (s : Server) (p : Presence) → IsConsistent s → IsConsistent (record s { presence = p })
keeps_presence s p h = record { linked = h.linked; older = h.older; started = h.started }

pub keeps_if :
    {A : Type 0} (b : Bool) (m n : Exec Server A) (s : Server)
    → IsConsistent (m s).1
    → IsConsistent (n s).1
    → IsConsistent ((if b then m else n) s).1
keeps_if true m n s km kn = km
keeps_if false m n s km kn = kn

pub keeps_for_each :
    {A : Type 0} (xs : List A) (f : A → Handler) (s : Server)
    → IsConsistent s
    → ((a : A) (t : Server) → IsConsistent t → IsConsistent (f a t).1)
    → IsConsistent (for_each xs f s).1
keeps_for_each [] f s h k = h
keeps_for_each (x ∷ xs) f s h k =
    keeps_proceed (f x s).0 (f x s).1 (λ _. for_each xs f) (k x s h)
      (λ _. keeps_for_each xs f (f x s).1 (k x s h) k)

-- A change of a session object that leaves its user.
update_session-IsLinked :
    (id : ℕ) (f : Session → Session) (p : Sessions)
    → ((x : Session) → (f x).user_id ≡ x.user_id)
    → IsLinked p
    → IsLinked (update_session id f p)
unfolding update_session
update_session-IsLinked id f p same v = record {
  linked = λ user k e. ground (arith, v.linked user k, same (p.heap k));
  bounded = v.bounded;
}

sessions-update_session :
    (id : ℕ) (f : Session → Session) (p : Sessions) → (update_session id f p).sessions ≡ p.sessions
unfolding update_session
sessions-update_session id f p = refl

pub keeps_on_session :
    (id : ℕ) (f : Session → Session) (s : Server)
    → ((x : Session) → (f x).user_id ≡ x.user_id)
    → IsConsistent s
    → IsConsistent (record s { sessions = update_session id f s.sessions })
unfolding update_session
keeps_on_session id f s same h = record {
  linked = update_session-IsLinked id f s.sessions same h.linked;
  older = h.older;
  started = h.started;
}

user_id-deliver : (json : Bytes) (x : Session) → (deliver json x).1.user_id ≡ x.user_id
unfolding deliver
user_id-deliver json x = ground arith

pub keeps_deliver_to :
    (id : ℕ) (json : Bytes) (s : Server) → IsConsistent s → IsConsistent (deliver_to id json s).1
unfolding deliver_to
keeps_deliver_to id json s h =
    keeps_on_session id (λ x. (deliver json x).1) s (user_id-deliver json) h

pub keeps_deliver_if :
    (target : Option ℕ) (json : Bytes) (s : Server)
    → IsConsistent s
    → IsConsistent (deliver_if target json s).1
keeps_deliver_if none json s h = h
keeps_deliver_if (some id) json s h = keeps_deliver_to id json s h

pub keeps_deliver_to_users :
    (json : Bytes) (users : List ℤ) (s : Server)
    → IsConsistent s
    → IsConsistent (deliver_to_users json users s).1
unfolding deliver_to_users
keeps_deliver_to_users json users s h =
    keeps_for_each users _ s h (λ user t k. keeps_deliver_if _ json t k)

sessions-bind_user :
    (id : ℕ) (user : ℤ) (p : Sessions) → (bind_user id user p).1.sessions ≡ p.sessions
unfolding bind_user
sessions-bind_user id user p = ground arith

sessions-unbind_user : (user : ℤ) (p : Sessions) → (unbind_user user p).sessions ≡ p.sessions
unfolding unbind_user
sessions-unbind_user user p = ground arith

pub keeps_bind_user :
    (id : ℕ) (user : ℤ) (s : Server)
    → IsConsistent s
    → IsConsistent (record s { sessions = (bind_user id user s.sessions).1 })
keeps_bind_user id user s h = record {
  linked = bind_user-IsLinked id user s.sessions h.linked;
  older = rw (sessions-bind_user id user s.sessions) h.older;
  started = h.started;
}

pub keeps_unbind_user :
    (user : ℤ) (s : Server)
    → IsConsistent s
    → IsConsistent (record s { sessions = unbind_user user s.sessions })
keeps_unbind_user user s h = record {
  linked = unbind_user-IsLinked user s.sessions h.linked;
  older = rw (sessions-unbind_user user s.sessions) h.older;
  started = h.started;
}

All-keep :
    (n : ℕ) (p : ℕ → Bool) (ids : List ℕ) → All (λ id. id < n) ids → All (λ id. id < n) (keep p ids)
All-keep n p [] h = tt
All-keep n p (id ∷ ids) h = ground (arith, All-keep n p ids h.1)

pub keeps_remove :
    (id : ℕ) (s : Server)
    → IsConsistent s
    → IsConsistent (record s { sessions = remove id s.sessions })
unfolding remove
keeps_remove id s h = record {
  linked = remove-IsLinked id s.sessions h.linked;
  older = ground (arith, All-keep s.next_id (λ k. not (k == id)) s.sessions.sessions h.older);
  started = h.started;
}
