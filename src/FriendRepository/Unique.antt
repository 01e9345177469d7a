-- ===== src/FriendRepository/Unique.antt =====
-- UNIQUE(from_uid, to_uid) of the table "friendships".
use lan_chat_next.Prelude.{
  String, ◌≡◌, refl, ◌∙◌, Bool, false, ◌||◌, Option, none, some, List, [], ◌∷◌, ◌++◌, map, ℤ,
  to_int32, keep, any, string_eq, int_eq, if◌then◌else◌, arith, int_beq_iff, Bool-cases, inl, inr,
}
use lan_chat_next.Env.{Env}
use lan_chat_next.Database.{Friendship}
use lan_chat_next.FriendRepository.{
  is_pair, is_pending, update_where, insert_request, refresh_request, send_found, send_rows,
  set_status_rows, remove_rows, find_between,
}

-- No row stands for the pair of an earlier one.
abbrev pub IsUnique : List Friendship → Type 0
IsUnique [] = Unit {0}
IsUnique (f ∷ rows) = (any (is_pair f.from_uid f.to_uid) rows ≡ false) × IsUnique rows

any-append-one :
    (a b : ℤ) (rows : List Friendship) (f : Friendship)
    → any (is_pair a b) rows ≡ false
    → is_pair a b f ≡ false
    → any (is_pair a b) (rows ++ f ∷ []) ≡ false
any-append-one a b [] f h e = ground arith
any-append-one a b (r ∷ rows) f h e = ground (arith, any-append-one a b rows f)

is_pair_comm : (f g : Friendship) → is_pair f.from_uid f.to_uid g ≡ is_pair g.from_uid g.to_uid f
is_pair_comm f g = ground (
  arith,
  int_beq_iff f.from_uid g.from_uid,
  int_beq_iff g.from_uid f.from_uid,
  int_beq_iff f.to_uid g.to_uid,
  int_beq_iff g.to_uid f.to_uid,
)

append-IsUnique :
    (rows : List Friendship) (f : Friendship)
    → any (is_pair f.from_uid f.to_uid) rows ≡ false
    → IsUnique rows
    → IsUnique (rows ++ f ∷ [])
append-IsUnique [] f h u = (refl, tt)
append-IsUnique (r ∷ rows) f h u = (
  any-append-one r.from_uid r.to_uid rows f u.0 (is_pair_comm r f ∙ or_false_first _ _ h),
  append-IsUnique rows f (or_false_second _ _ h) u.1,
)
  where
    or_false_first : (a b : Bool) → (a || b) ≡ false → a ≡ false
    or_false_first a b h = ground arith

    or_false_second : (a b : Bool) → (a || b) ≡ false → b ≡ false
    or_false_second a b h = ground arith

any-keep :
    (a b : ℤ) (p : Friendship → Bool) (rows : List Friendship)
    → any (is_pair a b) rows ≡ false
    → any (is_pair a b) (keep p rows) ≡ false
any-keep a b p [] h = refl
any-keep a b p (r ∷ rows) h = ground (arith, any-keep a b p rows)

keep-IsUnique :
    (p : Friendship → Bool) (rows : List Friendship) → IsUnique rows → IsUnique (keep p rows)
keep-IsUnique p [] u = tt
keep-IsUnique p (r ∷ rows) u = elim (Bool-cases (p r)) [
  | inl e ↦ rw e (any-keep r.from_uid r.to_uid p rows u.0, keep-IsUnique p rows u.1)
  | inr e ↦ rw e (keep-IsUnique p rows u.1)
]

-- A change of rows that leaves their pairs.
module _ (g : Friendship → Friendship)
    (same : (r : Friendship) → ((g r).from_uid ≡ r.from_uid) × ((g r).to_uid ≡ r.to_uid)) where
  any-map :
      (a b : ℤ) (rows : List Friendship) → any (is_pair a b) (map g rows) ≡ any (is_pair a b) rows
  any-map a b [] = refl
  any-map a b (r ∷ rows) = rw ((same r).0, (same r).1, any-map a b rows)

  map-IsUnique : (rows : List Friendship) → IsUnique rows → IsUnique (map g rows)
  map-IsUnique [] u = tt
  map-IsUnique (r ∷ rows) u =
      (rw ((same r).0, (same r).1) (any-map r.from_uid r.to_uid rows ∙ u.0), map-IsUnique rows u.1)

insert_request-IsUnique :
    (env : Env) (from to : ℤ) (msg : String) (rows : List Friendship)
    → IsUnique rows
    → IsUnique (insert_request env from to msg rows).1
unfolding insert_request
insert_request-IsUnique env from to msg rows u = elim (Bool-cases (any (is_pair from to) rows)) [
  | inl e ↦ rw e u
  | inr e ↦ rw e (append-IsUnique rows _ e u)
]

update_where-IsUnique :
    (p : Friendship → Bool) (f : Friendship → Friendship) (rows : List Friendship)
    → ((r : Friendship) → ((f r).from_uid ≡ r.from_uid) × ((f r).to_uid ≡ r.to_uid))
    → IsUnique rows
    → IsUnique (update_where p f rows).1
unfolding update_where
update_where-IsUnique p f rows same u = map-IsUnique _ (λ r. either r) rows u
  where
    either :
        (r : Friendship)
        → ((if p r then f r else r).from_uid ≡ r.from_uid)
          × ((if p r then f r else r).to_uid ≡ r.to_uid)
    either r = elim (Bool-cases (p r)) [ inl e ↦ rw e (same r) | inr e ↦ rw e (refl, refl) ]

send_found-IsUnique :
    (env : Env) (from to : ℤ) (msg : String) (found : Option Friendship) (rows : List Friendship)
    → IsUnique rows
    → IsUnique (send_found env from to msg found rows).1
unfolding send_found refresh_request
send_found-IsUnique env from to msg none rows u = insert_request-IsUnique env from to msg rows u
send_found-IsUnique env from to msg (some f) rows u = ground (
  arith,
  u,
  insert_request-IsUnique env from to msg rows u,
  update_where-IsUnique (is_pending from to)
      (λ r. record r { request_msg = msg; updated_at = to_int32 env.now }) rows (λ r. (refl, refl))
      u,
)

-- Whatever happens to the friendships of a table where no pair of users has two rows in the same
-- direction, none has afterwards: a request, a change of its status, or a removal.
pub rows-IsUnique :
    (env : Env) (from to : ℤ) (msg status : String) (rows : List Friendship)
    → IsUnique rows
    → IsUnique (send_rows env from to msg rows).1
      × IsUnique (set_status_rows env from to status rows).1
      × IsUnique (remove_rows from to rows).1
unfolding send_rows set_status_rows remove_rows
rows-IsUnique env from to msg status rows u = (
  send_found-IsUnique env from to msg (find_between from to rows) rows u,
  update_where-IsUnique (is_pending from to) _ rows (λ r. (refl, refl)) u,
  keep-IsUnique _ rows u,
)
