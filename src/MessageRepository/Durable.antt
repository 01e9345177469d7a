-- ===== src/MessageRepository/Durable.antt =====
-- The messages of src/server/src/db/MessageRepository.cpp in the file of the database.
use lan_chat_next.Prelude.{
  false, codes, Bool, String, ◌≡◌, refl, ℤ, pos, negsuc, Bool-cases, inl, inr, arith, ◌==◌,
  string_eq,
}
use text.Mathlib.Text.{is_lt}
use Prim.Native.String.{compare}
use lan_chat_next.Json.{Value, Object, put}
use lan_chat_next.Json.Numbers.{InInt64}
use lan_chat_next.Json.Order.{IsSorted, put-IsSorted}
use lan_chat_next.Json.Nul.{has_nul, NoNul, NoNulFields-put}
use lan_chat_next.Json.Reading.{Printable, PrintableFields}
use lan_chat_next.Env.{Env}
use lan_chat_next.RowFields.{IsInt}
use lan_chat_next.Records.{StoredMessage}
use lan_chat_next.Database.{Row, Database}
use lan_chat_next.Database.Reopen.{IsWritable}
use lan_chat_next.MessageRepository.Codec.{IsStored}
use Object.{end, field}

PrintableFields-put :
    (k : String) (v : Value) (o : Object)
    → Printable v
    → PrintableFields o
    → PrintableFields (put k v o)
unfolding put Printable
PrintableFields-put k v end h p = (h, tt)
PrintableFields-put k v (field j w o) h p = elim (Bool-cases (j == k)) [
  | inl e ↦ rw e (h, p.1)
  | inr e ↦ rw e (elim (Bool-cases (is_lt (compare k j))) [
    | inl b ↦ rw b (h, p)
    | inr b ↦ rw b (p.0, PrintableFields-put k v o h p.1)
  ])
]

-- A field that is written leaves a row writable.
put-IsWritable :
    (k : String) (v : Value) (row : Row)
    → has_nul (codes k) ≡ false
    → Printable v
    → NoNul v
    → IsWritable row
    → IsWritable (put k v row)
unfolding Printable NoNul
put-IsWritable k v row c h n w = (
  (put-IsSorted k v row w.0.0, PrintableFields-put k v row h w.0.1),
  NoNulFields-put k v row c n w.1,
)

-- The members that are an `int` in C++ hold the value of an `int`, and the others 64 bits; and no text
-- holds a NUL.
pub record IsKept (m : StoredMessage) : Type 0 where
  pub stored : IsStored m
  pub msg_id : InInt64 m.msg_id
  pub timestamp : InInt64 m.timestamp
  pub edited_at : InInt64 m.edited_at
  pub deleted_at : InInt64 m.deleted_at
  pub content : has_nul (codes m.content) ≡ false
  pub content_type : has_nul (codes m.content_type) ≡ false
  pub reactions : has_nul (codes m.reactions) ≡ false

IsInt-InInt64 : (i : ℤ) → IsInt i → InInt64 i
IsInt-InInt64 (pos n) h = omega arith
IsInt-InInt64 (negsuc n) h = omega arith

module _ (k : String) (row : Row) (c : has_nul (codes k) ≡ false) (w : IsWritable row) where
  put-text : (t : String) → has_nul (codes t) ≡ false → IsWritable (put k (Value.str t) row)
  put-text t n = put-IsWritable k (Value.str t) row c (unfold Printable in tt) (unfold NoNul in n) w

  put-flag : (b : Bool) → IsWritable (put k (Value.bool b) row)
  put-flag b = put-IsWritable k (Value.bool b) row c (unfold Printable in tt) (unfold NoNul in tt) w

  put-number : (i : ℤ) → InInt64 i → IsWritable (put k (Value.int i) row)
  put-number i h =
      put-IsWritable k (Value.int i) row c (unfold Printable in h) (unfold NoNul in tt) w

end-IsWritable : IsWritable end
unfolding Printable IsSorted NoNul
end-IsWritable = ((tt, tt), tt)

ruleset writable = (put-text, put-flag, put-number, end-IsWritable, IsInt-InInt64, refl)
