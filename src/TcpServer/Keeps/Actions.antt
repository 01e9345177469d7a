-- ===== src/TcpServer/Keeps/Actions.antt =====
-- For each way to build a handler, a rule that it keeps the invariant of Rules, as a ruleset for
-- `search`.
use lan_chat_next.Prelude.{
  ℕ, ◌≡◌, Bool, true, false, Option, List, ℤ, int_eq, nat_eq, if◌then◌else◌, Exec, Result, ok, err,
  for_each, skip, when, pure, gets, attempt, caught, ◌>>=◌, ◌>>◌,
}
use lan_chat_next.Env.{Bytes}
use lan_chat_next.Database.{Database}
use lan_chat_next.PresenceManager.{Presence}
use lan_chat_next.AsyncSession.{Session}
use lan_chat_next.SessionPool.{update_session, remove, bind_user, unbind_user}
use lan_chat_next.Server.{
  Server, Handler, on_db, on_sessions, on_presence, deliver_to, deliver_if, deliver_to_users,
}
use lan_chat_next.TcpServer.Keeps.Rules.{
  IsConsistent, keeps_proceed, keeps_db, keeps_presence, keeps_for_each, keeps_on_session,
  keeps_deliver_to, keeps_deliver_if, keeps_deliver_to_users, keeps_bind_user, keeps_unbind_user,
  keeps_remove,
}

-- The handler keeps the invariant, whether it returns or throws.
pub record Keeps {A : Type 0} (m : Exec Server A) : Type 0 where
  pub at : (s : Server) → IsConsistent s → IsConsistent (m s).1

module _ {A : Type 0} where
  pub Keeps-pure : (a : A) → Keeps (pure a)
  Keeps-pure a = record { at = λ s h. h }

  pub Keeps-gets : (f : Server → A) → Keeps (gets f)
  Keeps-gets f = record { at = λ s h. h }

  pub Keeps-on_db : (m : Exec Database A) → Keeps (on_db m)
  Keeps-on_db m = record { at = λ s h. keeps_db s (m s.db).1 h }

  pub Keeps-if : (b : Bool) (m n : Exec Server A) → Keeps m → Keeps n → Keeps (if b then m else n)
  Keeps-if true m n km kn = km
  Keeps-if false m n km kn = kn

  pub Keeps-for_each :
      (xs : List A) (f : A → Handler) → ((a : A) → Keeps (f a)) → Keeps (for_each xs f)
  Keeps-for_each xs f k = record { at = λ s h. keeps_for_each xs f s h (λ a t. (k a).at t) }

pub Keeps-bind :
    {A B : Type 0} (m : Exec Server A) (f : A → Exec Server B)
    → Keeps m
    → ((a : A) → Keeps (f a))
    → Keeps (m >>= f)
Keeps-bind m f km kf = record {
  at = λ s h. keeps_proceed (m s).0 (m s).1 f (km.at s h) (λ a. (kf a).at (m s).1 (km.at s h));
}

pub Keeps-then :
    {A B : Type 0} (m : Exec Server A) (n : Exec Server B) → Keeps m → Keeps n → Keeps (m >> n)
Keeps-then m n km kn = Keeps-bind m (λ _. n) km (λ _. kn)

pub Keeps-when : (b : Bool) (m : Handler) → Keeps m → Keeps (when b m)
Keeps-when b m km = Keeps-if b m skip km (record { at = λ s h. h })

pub Keeps-skip : Keeps skip
Keeps-skip = record { at = λ s h. h }

pub Keeps-on_presence : (f : Presence → Presence) → Keeps (on_presence f)
Keeps-on_presence f = record { at = λ s h. keeps_presence s (f s.presence) h }

pub Keeps-on_session :
    (id : ℕ) (f : Session → Session)
    → ((x : Session) → (f x).user_id ≡ x.user_id)
    → Keeps (on_sessions (update_session id f))
Keeps-on_session id f same = record { at = λ s h. keeps_on_session id f s same h }

pub Keeps-bind_user : (id : ℕ) (user : ℤ) → Keeps (on_sessions λ p. (bind_user id user p).1)
Keeps-bind_user id user = record { at = keeps_bind_user id user }

pub Keeps-unbind_user : (user : ℤ) → Keeps (on_sessions (unbind_user user))
Keeps-unbind_user user = record { at = keeps_unbind_user user }

pub Keeps-remove : (id : ℕ) → Keeps (on_sessions (remove id))
Keeps-remove id = record { at = keeps_remove id }

pub Keeps-deliver_to : (id : ℕ) (json : Bytes) → Keeps (deliver_to id json)
Keeps-deliver_to id json = record { at = keeps_deliver_to id json }

pub Keeps-deliver_if : (target : Option ℕ) (json : Bytes) → Keeps (deliver_if target json)
Keeps-deliver_if target json = record { at = keeps_deliver_if target json }

pub Keeps-deliver_to_users : (json : Bytes) (users : List ℤ) → Keeps (deliver_to_users json users)
Keeps-deliver_to_users json users = record { at = keeps_deliver_to_users json users }

pub Keeps-attempt : {A : Type 0} (m : Exec Server A) → Keeps m → Keeps (attempt m)
Keeps-attempt m km = record { at = λ s h. caught-keeps (m s).0 (m s).1 (km.at s h) }
  where
    caught-keeps :
        {A : Type 0} (r : Result A) (s : Server) → IsConsistent s → IsConsistent (caught r s).1
    caught-keeps (ok a) s h = h
    caught-keeps (err c) s h = h

pub ruleset keeps_rules = (
  Keeps-pure, Keeps-gets, Keeps-on_db, Keeps-if, Keeps-for_each, Keeps-bind, Keeps-then, Keeps-when,
  Keeps-skip, Keeps-on_presence, Keeps-bind_user, Keeps-unbind_user, Keeps-remove, Keeps-deliver_to,
  Keeps-deliver_if, Keeps-deliver_to_users,
)
