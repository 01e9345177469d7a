-- ===== src/Json/Assigned.antt =====
-- An object of src/server/vendor/mini_json.hpp that is filled from its own entries.
use lan_chat_next.Prelude.{◌≡◌, refl, sym, String, true}
use lan_chat_next.Json.{Value, Object, put}
use lan_chat_next.Json.Order.{before, before_ne, before_asym, KeysAbove, IsSorted}
use Object.{end, field}

-- What the loop of `parse_object` builds: the entries are assigned one after the other.
unfoldable pub assigned : Object → Object → Object
assigned o end = o
assigned o (field k v rest) = assigned (put k v o) rest

-- The entries of one object in front of those of another.
append : Object → Object → Object
append end o = o
append (field k v rest) o = field k v (append rest o)

append-end : (o : Object) → append o end ≡ o
unfolding append
append-end end = refl
append-end (field k v o) = rw (append-end o) refl

append_assoc : (o m n : Object) → append (append o m) n ≡ append o (append m n)
unfolding append
append_assoc end m n = refl
append_assoc (field k v o) m n = rw (append_assoc o m n) refl

KeysBelow : Object → String → Type 0
KeysBelow end k = Unit {0}
KeysBelow (field j v o) k = (before j k ≡ true) × KeysBelow o k

put_last :
    (k : String) (v : Value) (o : Object) → KeysBelow o k → put k v o ≡ append o (field k v end)
unfolding put KeysBelow append
put_last k v end h = refl
put_last k v (field j w o) h = rw (before_ne j k h.0, before_asym j k h.0, put_last k v o h.1) refl

AllBelow : Object → Object → Type 0
AllBelow acc end = Unit {0}
AllBelow acc (field k v o) = KeysBelow acc k × AllBelow acc o

KeysBelow-append :
    (acc : Object) (j : String) (w : Value) (k : String)
    → KeysBelow acc k
    → before j k ≡ true
    → KeysBelow (append acc (field j w end)) k
unfolding KeysBelow append
KeysBelow-append end j w k h b = (b, tt)
KeysBelow-append (field i v acc) j w k h b = (h.0, KeysBelow-append acc j w k h.1 b)

AllBelow-append :
    (acc : Object) (j : String) (w : Value) (o : Object)
    → AllBelow acc o
    → KeysAbove j o
    → AllBelow (append acc (field j w end)) o
unfolding AllBelow KeysAbove
AllBelow-append acc j w end h a = tt
AllBelow-append acc j w (field k v o) h a =
    (KeysBelow-append acc j w k h.0 a.0, AllBelow-append acc j w o h.1 a.1)

assigned-append : (acc o : Object) → AllBelow acc o → IsSorted o → assigned acc o ≡ append acc o
unfolding assigned AllBelow IsSorted append
assigned-append acc end h s = sym (append-end acc)
assigned-append acc (field k v o) h s =
    rw
      (
        put_last k v acc h.0,
        assigned-append (append acc (field k v end)) o (AllBelow-append acc k v o h.1 s.0) s.1,
      )
      (append_assoc acc (field k v end) o)

AllBelow-end : (o : Object) → AllBelow end o
unfolding AllBelow KeysBelow
AllBelow-end end = tt
AllBelow-end (field k v o) = (tt, AllBelow-end o)

-- Entries in the order of their keys, assigned one after the other, make the same object.
pub assigned_sorted : (o : Object) → IsSorted o → assigned end o ≡ o
assigned_sorted o s = unfold append in assigned-append end o (AllBelow-end o) s
