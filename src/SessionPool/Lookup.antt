-- ===== src/SessionPool/Lookup.antt =====
-- What `findByUserId` finds after the operations of the pool, and after any run of them.
use lan_chat_next.Prelude.{
  Bool, false, ◌&&◌, ◌⊎◌, Bool-cases, refl, ℕ, ◌≡◌, ◌≢◌, true, not, none, some, List, [], ◌∷◌, ℤ,
  pos, positive, keep, ◌==◌, nat_eq, int_eq, arith, nat_beq_iff, int_beq_iff, Option-cases, inl,
  inr,
}
use lan_chat_next.AsyncSession.{new_session}
use lan_chat_next.SessionPool.{
  Sessions, contains, add, remove, find_session, find_by_user_id, bind_user, unbind_user,
}
use lan_chat_next.SessionPool.Binding.{
  IsLinked, add-IsLinked, remove-IsLinked, bind_user-IsLinked, unbind_user-IsLinked,
}

-- The user is found at this session, which is signed in as the user; a user that is neither this one
-- nor the one that the session was signed in as before is found where it was.
abbrev pub Binds : ℕ → ℤ → Sessions → Bool × Sessions → Type 0
Binds id user p r =
    (r.0 ≡ true)
    × (find_by_user_id user r.1 ≡ some id)
    × ((r.1.heap id).user_id ≡ user)
    × ((other : ℤ)
        → other ≢ user
        → other ≢ (p.heap id).user_id
        → find_by_user_id other r.1 ≡ find_by_user_id other p)

bind_user-Binds :
    (id : ℕ) (user : ℤ) (p : Sessions)
    → contains id p.sessions ≡ true
    → positive user ≡ true
    → Binds id user p (bind_user id user p)
unfolding find_by_user_id find_session bind_user
bind_user-Binds id user p member positive = (
  ground arith,
  ground (arith, int_beq_iff user user),
  ground (arith, nat_beq_iff id id),
  λ other h k. ground (arith, int_beq_iff user other, int_beq_iff (p.heap id).user_id other),
)

both_true : (a b : Bool) → (a && b) ≡ true → (a ≡ true) × (b ≡ true)
both_true a b h = (ground arith, ground arith)

-- `bindUser` succeeds exactly for a session of the pool and a positive user. The user is then found at
-- this session, which is signed in as the user, and a user that is neither this one nor the one that
-- the session was signed in as before is found where it was. For any other session or user it fails and
-- leaves the pool as it was.
pub find_by_user_id-bind_user :
    (id : ℕ) (user : ℤ) (p : Sessions)
    → (((contains id p.sessions && positive user) ≡ true) × Binds id user p (bind_user id user p))
      ⊎ (((contains id p.sessions && positive user) ≡ false) × (bind_user id user p ≡ (false, p)))
unfolding bind_user
find_by_user_id-bind_user id user p = elim (Bool-cases (contains id p.sessions && positive user)) [
  | inl e ↦
      let both = both_true (contains id p.sessions) (positive user) e in
      inl (e, unfold bind_user in bind_user-Binds id user p both.0 both.1)
  | inr e ↦ inr (e, rw e refl)
]

-- A session that is found for a user is in the pool and signed in as that user.
find_by_user_id_sound :
    (user : ℤ) (id : ℕ) (p : Sessions)
    → IsLinked p
    → find_by_user_id user p ≡ some id
    → (contains id p.sessions ≡ true) × ((p.heap id).user_id ≡ user)
unfolding find_by_user_id find_session
find_by_user_id_sound user id p v h = elim (Option-cases (p.user_to_session user)) [
  | inl e ↦ ground arith
  | inr (k, e) ↦ ground (arith, v.linked user k)
]

-- A user that is mapped to a session is found: the map never leads out of the pool.
pub find_by_user_id_complete :
    (user : ℤ) (id : ℕ) (p : Sessions)
    → IsLinked p
    → p.user_to_session user ≡ some id
    → find_by_user_id user p ≡ some id
unfolding find_by_user_id find_session
find_by_user_id_complete user id p v e = ground (arith, v.linked user id)

-- After `unbindUser` the user is not found, and the session that the user was mapped to is signed
-- out.
pub find_by_user_id-unbind_user :
    (user : ℤ) (id : ℕ) (p : Sessions)
    → IsLinked p
    → p.user_to_session user ≡ some id
    → (find_by_user_id user (unbind_user user p) ≡ none)
      × (((unbind_user user p).heap id).user_id ≡ pos 0)
unfolding find_by_user_id unbind_user
find_by_user_id-unbind_user user id p v e =
    (ground (arith, int_beq_iff user user), ground (arith, nat_beq_iff id id, v.linked user id))

contains-keep_self :
    (id k : ℕ) (ids : List ℕ)
    → k ≢ id
    → contains k ids ≡ true
    → contains k (keep (λ j. not (j == id)) ids) ≡ true
contains-keep_self id k [] ne h = cc
contains-keep_self id k (j ∷ ids) ne h = ground (arith, contains-keep_self id k ids)

-- A user signs in at `first` and then at `second_id`, two sessions of the pool. When `first` is then
-- removed, the user is not found any more, although `second_id` is still in the pool and signed in
-- as the user.
pub remove_older_login_loses_user :
    (first second_id : ℕ) (user : ℤ) (p : Sessions)
    → contains first p.sessions ≡ true
    → contains second_id p.sessions ≡ true
    → second_id ≢ first
    → positive user ≡ true
    → let q = remove first (bind_user second_id user (bind_user first user p).1).1 in
      (find_by_user_id user q ≡ none)
      × (contains second_id q.sessions ≡ true)
      × ((q.heap second_id).user_id ≡ user)
unfolding find_by_user_id find_session bind_user remove
remove_older_login_loses_user first second_id user p m1 m2 ne h = (
  ground (
    arith,
    int_beq_iff user user,
    int_beq_iff user (pos 0),
    nat_beq_iff first first,
    nat_beq_iff second_id first,
  ),
  ground (arith, contains-keep_self first second_id p.sessions),
  ground (arith, nat_beq_iff second_id second_id),
)

-- The calls of the pool's methods.
pub data Op : Type 0 where
  adds removes : ℕ → Op
  binds : ℕ → ℤ → Op
  unbinds : ℤ → Op

abbrev pub apply : Op → Sessions → Sessions
apply (adds id) p = (add id p).1
apply (removes id) p = remove id p
apply (binds id user) p = (bind_user id user p).1
apply (unbinds user) p = unbind_user user p

abbrev pub run : List Op → Sessions → Sessions
run [] p = p
run (op ∷ ops) p = run ops (apply op p)

apply-IsLinked : (op : Op) (p : Sessions) → IsLinked p → IsLinked (apply op p)
apply-IsLinked (adds id) p v = add-IsLinked id p v
apply-IsLinked (removes id) p v = remove-IsLinked id p v
apply-IsLinked (binds id user) p v = bind_user-IsLinked id user p v
apply-IsLinked (unbinds user) p v = unbind_user-IsLinked user p v

-- The pool at the start: no session, no user.
abbrev pub empty_pool : ℕ → Sessions
empty_pool limit = record {
  heap = λ id. new_session id 0;
  max_connections = limit;
  sessions = [];
  user_to_session = λ user. none;
}

run-IsLinked : (ops : List Op) (p : Sessions) → IsLinked p → IsLinked (run ops p)
run-IsLinked [] p v = v
run-IsLinked (op ∷ ops) p v = run-IsLinked ops (apply op p) (apply-IsLinked op p v)

-- After any calls of add, remove, bindUser and unbindUser on an empty pool, every user that is
-- mapped is mapped to a session of the pool that is signed in as this user, its number is
-- positive, and the pool holds at most as many sessions as its limit.
pub run-empty_pool-IsLinked : (limit : ℕ) (ops : List Op) → IsLinked (run ops (empty_pool limit))
run-empty_pool-IsLinked limit ops =
    run-IsLinked ops (empty_pool limit)
      (record { linked = λ user id e. ground arith; bounded = omega arith })
