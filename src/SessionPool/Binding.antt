-- ===== src/SessionPool/Binding.antt =====
-- Which session a user is found at.
use lan_chat_next.Prelude.{
  ℕ, ◌≤◌, ◌≡◌, ◌≢◌, true, not, some, List, [], ◌∷◌, ◌++◌, ℤ, pos, positive, keep, length, ◌==◌,
  nat_eq, int_eq, arith, int_beq_iff, length-append, length-keep-le,
}
use lan_chat_next.SessionPool.{Sessions, contains, add, remove, bind_user, unbind_user}

-- A user is mapped to a session of the pool that is signed in as this user, and only users with a
-- positive number are; and the pool is within its limit.
pub record IsLinked (p : Sessions) : Type 0 where
  pub linked :
      (user : ℤ) (id : ℕ)
      → p.user_to_session user ≡ some id
      → (contains id p.sessions ≡ true) × ((p.heap id).user_id ≡ user) × (positive user ≡ true)
  pub bounded : length p.sessions ≤ p.max_connections

contains-append :
    (id k : ℕ) (ids : List ℕ) → contains k ids ≡ true → contains k (ids ++ id ∷ []) ≡ true
contains-append id k [] h = cc
contains-append id k (j ∷ ids) h = ground (arith, contains-append id k ids)

contains-keep :
    (id k : ℕ) (ids : List ℕ)
    → contains k ids ≡ true
    → k ≢ id
    → contains k (keep (λ j. not (j == id)) ids) ≡ true
contains-keep id k [] h ne = cc
contains-keep id k (j ∷ ids) h ne = ground (arith, contains-keep id k ids)

pub add-IsLinked : (id : ℕ) (p : Sessions) → IsLinked p → IsLinked (add id p).1
unfolding add
add-IsLinked id p v = record {
  linked = λ user k e. ground (arith, v.linked user k, contains-append id k p.sessions);
  bounded = ground (arith, length-append p.sessions (id ∷ []), v.bounded);
}

pub remove-IsLinked : (id : ℕ) (p : Sessions) → IsLinked p → IsLinked (remove id p)
unfolding remove
remove-IsLinked id p v = record {
  linked = λ user k e. ground (
    arith,
    v.linked user k,
    contains-keep id k p.sessions,
    int_beq_iff (p.heap id).user_id user,
    int_beq_iff (p.heap id).user_id (pos 0),
  );
  bounded = ground (arith, length-keep-le (λ k. not (k == id)) p.sessions, v.bounded);
}

pub bind_user-IsLinked :
    (id : ℕ) (user : ℤ) (p : Sessions) → IsLinked p → IsLinked (bind_user id user p).1
unfolding bind_user
bind_user-IsLinked id user p v = record {
  linked = λ u k e. ground (
    arith,
    v.linked u k,
    int_beq_iff user u,
    int_beq_iff (p.heap id).user_id u,
    int_beq_iff (p.heap id).user_id (pos 0),
  );
  bounded = ground (arith, v.bounded);
}

pub unbind_user-IsLinked : (user : ℤ) (p : Sessions) → IsLinked p → IsLinked (unbind_user user p)
unfolding unbind_user
unbind_user-IsLinked user p v = record {
  linked = λ u k e. ground (arith, v.linked u k, v.linked user k, int_beq_iff user u);
  bounded = ground (arith, v.bounded);
}
