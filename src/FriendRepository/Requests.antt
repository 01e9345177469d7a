-- ===== src/FriendRepository/Requests.antt =====
-- The life of a friend request: sent, accepted or rejected, and removed.
use lan_chat_next.Prelude.{
  String, ◌≡◌, refl, ap, sym, ◌∙◌, Bool, true, false, not, ◌||◌, some, List, [], ◌∷◌, ◌++◌, map, ℤ,
  int_beq_iff, positive, to_int32, keep, any, first, ◌==◌, string_eq, int_eq, if◌then◌else◌, ok,
  err, arith, Bool-cases, inl, inr,
}
use lan_chat_next.Env.{Env}
use lan_chat_next.Database.{Database, Friendship}
use lan_chat_next.FriendRepository.{
  is_pair, is_between, is_pending, on_friendships, update_where, send_found, send_rows,
  send_request, set_status_rows, set_status, accept_request, remove_rows, remove_friendship,
  are_friends_rows, are_friends, find_between, reject_request,
}
use lan_chat_next.FriendRepository.Unique.{IsUnique}

ok_inj : {A : Type 0} (a b : A) → ok a ≡ ok b → a ≡ b
ok_inj a b e = ap (λ r. elim r [ ok x ↦ x | err c ↦ a ]) e

-- A table with these rows.
abbrev pub Holds : List Friendship → Database → Type 0
Holds rows db = db.friendships ≡ some rows

module _ {A : Type 0} (failed : A) (f : List Friendship → A × List Friendship) where
  on_friendships_lem :
      (db : Database) {rows : List Friendship}
      → Holds rows db
      → on_friendships failed f db ≡ (ok (f rows).0, record db { friendships = some (f rows).1 })
  on_friendships_lem db h = rw h refl

or_true : (a b : Bool) → b ≡ true → (a || b) ≡ true
or_true a b h = ground arith

or_false_left : (a b : Bool) → a ≡ false → (a || b) ≡ true → b ≡ true
or_false_left a b e h = ground arith

accepted_here :
    (from to now : ℤ) (r : Friendship) (b : Bool)
    → is_pending from to r ≡ true
    → (is_between from to (record r { status = "accepted"; updated_at = now }) || b) ≡ true
accepted_here from to now r b h = ground arith

accepted_rows :
    (from to now : ℤ) (rows : List Friendship)
    → any (is_pending from to) rows ≡ true
    → are_friends_rows from to (
        map
          (λ r.
            if is_pending from to r then record r { status = "accepted"; updated_at = now } else r)
          rows)
      ≡ true
unfolding are_friends_rows
accepted_rows from to now [] h = cc
accepted_rows from to now (r ∷ rows) h = elim (Bool-cases (is_pending from to r)) [
  | inl e ↦ rw e (accepted_here from to now r _ e)
  | inr e ↦ rw e (or_true _ _ (accepted_rows from to now rows (or_false_left _ _ e h)))
]

are_friends_rows_comm :
    (a b : ℤ) (rows : List Friendship) → are_friends_rows a b rows ≡ are_friends_rows b a rows
unfolding are_friends_rows
are_friends_rows_comm a b [] = refl
are_friends_rows_comm a b (r ∷ rows) = ground (arith, are_friends_rows_comm a b rows)

removed_rows :
    (a b : ℤ) (rows : List Friendship)
    → are_friends_rows a b (keep (λ r. not (is_between a b r)) rows) ≡ false
unfolding are_friends_rows
removed_rows a b [] = refl
removed_rows a b (r ∷ rows) = ground (arith, removed_rows a b rows)

set_status_accepted :
    (env : Env) (from to : ℤ) (rows : List Friendship)
    → (set_status_rows env from to "accepted" rows).0 ≡ true
    → are_friends_rows from to (set_status_rows env from to "accepted" rows).1 ≡ true
unfolding set_status_rows update_where
set_status_accepted env from to rows h = accepted_rows from to (to_int32 env.now) rows h

-- If `acceptRequest` succeeds on a table with these rows, `areFriends` holds of the two users
-- afterwards, in either order.
pub accept_request-are_friends :
    (env : Env) (from to : ℤ) (rows : List Friendship) (db : Database)
    → Holds rows db
    → (accept_request env from to db).0 ≡ ok true
    → let after = (accept_request env from to db).1 in
      ((are_friends from to after).0 ≡ ok true) × ((are_friends to from after).0 ≡ ok true)
unfolding accept_request set_status are_friends
accept_request-are_friends env from to rows db have done =
    let step = on_friendships_lem false (set_status_rows env from to "accepted") db have in
    let friends =
      set_status_accepted env from to rows (ok_inj _ _ (sym (ap (λ p. p.0) step) ∙ done)) in
    rw step (ap ok friends, ap ok (are_friends_rows_comm to from _ ∙ friends))

-- No row between the two users is left.
none_between :
    (a b : ℤ) (rows : List Friendship)
    → any (is_between a b) (keep (λ r. not (is_between a b r)) rows) ≡ false
none_between a b [] = refl
none_between a b (r ∷ rows) = ground (arith, none_between a b rows)

-- After `removeFriendship` on a table with these rows, which succeeds exactly if there was a row
-- between the two users, whatever its status, the rows are the others, in their order; none of them is
-- between the two users, and `areFriends` fails, in either order.
pub remove_friendship-are_friends :
    (a b : ℤ) (rows : List Friendship) (db : Database)
    → Holds rows db
    → let after = (remove_friendship a b db).1 in
      let left = keep (λ r. not (is_between a b r)) rows in
      ((remove_friendship a b db).0 ≡ ok (any (is_between a b) rows))
      × Holds left after
      × (any (is_between a b) left ≡ false)
      × ((are_friends a b after).0 ≡ ok false)
      × ((are_friends b a after).0 ≡ ok false)
unfolding remove_friendship remove_rows are_friends
remove_friendship-are_friends a b rows db have =
    let apart = removed_rows a b rows in
    rw have
      (refl, refl, none_between a b rows, ap ok apart, ap ok (are_friends_rows_comm b a _ ∙ apart))

-- The first request of a sender is rejected.
abbrev Rejected : ℤ → ℤ → List Friendship → Type 0
Rejected from to rows =
    (f : Friendship) × (find_between from to rows ≡ some f)
    × (f.status ≡ "rejected")
    × (is_pair from to f ≡ true)

own_first :
    (xs ys : List Friendship) (f : Friendship) → first xs ≡ some f → first (xs ++ ys) ≡ some f
own_first [] ys f h = cc
own_first (x ∷ xs) ys f h = h

pair_of_pending :
    (from to : ℤ) (r : Friendship) → is_pending from to r ≡ true → is_pair from to r ≡ true
pair_of_pending from to r h = ground arith

no_pending :
    (from to : ℤ) (rows : List Friendship)
    → any (is_pair from to) rows ≡ false
    → any (is_pending from to) rows ≡ false
no_pending from to [] h = refl
no_pending from to (r ∷ rows) h = ground (arith, no_pending from to rows)

same_pair :
    (from to : ℤ) (r : Friendship) (rows : List Friendship)
    → is_pair from to r ≡ true
    → any (is_pair r.from_uid r.to_uid) rows ≡ false
    → any (is_pair from to) rows ≡ false
same_pair from to r [] e h = refl
same_pair from to r (f ∷ rows) e h =
    ground (arith, same_pair from to r rows e, int_beq_iff r.from_uid from, int_beq_iff r.to_uid to)

-- Rejecting a pending request leaves the row of the sender rejected, since there is one such row.
own_rejected :
    (from to now : ℤ) (rows : List Friendship)
    → IsUnique rows
    → any (is_pending from to) rows ≡ true
    → (f : Friendship) × (first (
          keep (is_pair from to) (
            map
              (λ r.
                if is_pending from to r
                then record r { status = "rejected"; updated_at = now }
                else r)
              rows))
        ≡ some f)
      × (f.status ≡ "rejected")
      × (is_pair from to f ≡ true)
own_rejected from to now [] u h = absurd (cc)
own_rejected from to now (r ∷ rows) u h = elim (Bool-cases (is_pending from to r)) [
  | inl e ↦
      let pair = pair_of_pending from to r e in
      rw (e, pair) (record r { status = "rejected"; updated_at = now }, refl, refl, pair)
  | inr e ↦ elim (Bool-cases (is_pair from to r)) [
    | inl p ↦
        let none_left = no_pending from to rows (same_pair from to r rows p u.0) in
        absurd (cc (none_left, or_false_left _ _ e h))
    | inr p ↦ rw (e, p) (own_rejected from to now rows u.1 (or_false_left _ _ e h))
  ]
]

set_status-Rejected :
    (env : Env) (from to : ℤ) (rows : List Friendship)
    → IsUnique rows
    → (set_status_rows env from to "rejected" rows).0 ≡ true
    → Rejected from to (set_status_rows env from to "rejected" rows).1
unfolding set_status_rows update_where find_between
set_status-Rejected env from to rows u h =
    let own = own_rejected from to (to_int32 env.now) rows u h in
    (own.0, own_first _ _ own.0 own.1, own.2, own.3)

send_rows-Rejected :
    (env : Env) (from to : ℤ) (msg : String) (rows : List Friendship)
    → Rejected from to rows
    → send_rows env from to msg rows ≡ (false, rows)
unfolding send_rows send_found
send_rows-Rejected env from to msg rows r =
    let status = r.2 in let pair = r.3 in rw (r.1, status) (ground arith)

-- If `rejectRequest` succeeds on a table with these rows, where no pair of users has two rows in the
-- same direction, `sendRequest` of the same sender to the same receiver fails afterwards, with any
-- text and at any time, and leaves the database as the rejection left it.
pub send_request_after_reject :
    (env later : Env) (from to : ℤ) (msg : String) (rows : List Friendship) (db : Database)
    → Holds rows db
    → IsUnique rows
    → (reject_request env from to db).0 ≡ ok true
    → let after = (reject_request env from to db).1 in
      send_request later from to msg after ≡ (ok false, after)
unfolding reject_request set_status send_request
send_request_after_reject env later from to msg rows db have u done =
    let step = on_friendships_lem false (set_status_rows env from to "rejected") db have in
    let left = (set_status_rows env from to "rejected" rows).1 in
    let rejected =
      set_status-Rejected env from to rows u (ok_inj _ _ (sym (ap (λ p. p.0) step) ∙ done)) in
    elim (Bool-cases (not (positive from) || not (positive to) || from == to)) [
      | inl e ↦ rw e refl
      | inr e ↦ rw (e, step, send_rows-Rejected later from to msg left rejected) refl
    ]
