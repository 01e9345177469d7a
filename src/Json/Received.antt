-- ===== src/Json/Received.antt =====
-- Every value that the parser of src/server/vendor/mini_json.hpp makes of a text is well formed.
use lan_chat_next.Prelude.{
  subst, ℕ, zero, suc, ◌≡◌, true, false, Bool-cases, string_eq, inl, inr, some, [], ◌∷◌, String,
  ◌==◌, nat_eq, codes, drop,
}
use Prim.Native.String.{compare}
use text.Mathlib.Text.{is_lt}
use lan_chat_next.Json.{Value, Items, Object, put}
use lan_chat_next.Json.Order.{IsSorted, put-IsSorted}
use lan_chat_next.Env.{Env, Bytes}
use lan_chat_next.Json.Parser.{
  Parsed, skip_ws, next_is, expect, parse_string, Start, start_of, parse_array, parse_object,
  parse_from, after_element, after_key, after_field, parse_value, parse_elements, parse_fields,
  parse_fuel, parse_text, skip_left, parse, finished,
}
use Parsed.{got, refused, exhausted}
use Value.{null, bool}
use Object.{end, field}
use Start.{
  null_start, true_start, false_start, text_start, number_start, array_start, object_start,
  no_start,
}
use lan_chat_next.Json.Formed.{
  Formed, FormedItems, FormedFields, Yields, Yields-and_then, Any, Any-Yields, Yields-if,
  literal-Yields, parse_number-Yields,
}

FormedFields-put :
    (k : String) (v : Value) (o : Object) → Formed v → FormedFields o → FormedFields (put k v o)
unfolding put Formed
FormedFields-put k v end h p = (h, tt)
FormedFields-put k v (field j w o) h p = elim (Bool-cases (j == k)) [
  | inl e ↦ rw e (h, p.1)
  | inr e ↦ rw e (elim (Bool-cases (is_lt (compare k j))) [
    | inl b ↦ rw b (h, p)
    | inr b ↦ rw b (p.0, FormedFields-put k v o h p.1)
  ])
]

-- The entries of the object that is being filled.
abbrev FormedObject : Object → Type 0
FormedObject o = IsSorted o × FormedFields o

end-Formed : FormedObject end
unfolding IsSorted Formed
end-Formed = (tt, tt)

array-Yields :
    (elements : Bytes → Parsed Items) (s : Bytes)
    → ((t : Bytes) → Yields FormedItems (elements t))
    → Yields Formed (parse_array elements s)
unfolding parse_array Formed
array-Yields elements s h =
    Yields-if Formed (next_is b']' s) _ _ tt
      (Yields-and_then FormedItems Formed (elements s) _ (h s) λ vs rest q. q)

object-Yields :
    (fields : Bytes → Parsed Object) (s : Bytes)
    → ((t : Bytes) → Yields FormedObject (fields t))
    → Yields Formed (parse_object fields s)
unfolding parse_object Formed IsSorted
object-Yields fields s h =
    Yields-if Formed (next_is b'}' s) _ _ (tt, tt)
      (Yields-and_then FormedObject Formed (fields s) _ (h s) λ o rest q. q)

parse_from-Yields :
    (env : Env) (elements : Bytes → Parsed Items) (fields : Bytes → Parsed Object) (st : Start)
    (s : Bytes)
    → ((t : Bytes) → Yields FormedItems (elements t))
    → ((t : Bytes) → Yields FormedObject (fields t))
    → Yields Formed (parse_from env elements fields st s)
unfolding parse_from Formed
parse_from-Yields env elements fields null_start s h k = literal-Yields (codes "null") null s tt
parse_from-Yields env elements fields true_start s h k =
    literal-Yields (codes "true") (bool true) s tt
parse_from-Yields env elements fields false_start s h k =
    literal-Yields (codes "false") (bool false) s tt
parse_from-Yields env elements fields text_start s h k =
    Yields-and_then Any Formed (parse_string s) _ (Any-Yields (parse_string s)) λ t rest q. tt
parse_from-Yields env elements fields number_start s h k = parse_number-Yields env s
parse_from-Yields env elements fields array_start s h k =
    array-Yields elements (skip_ws (drop 1 s)) h
parse_from-Yields env elements fields object_start s h k =
    object-Yields fields (skip_ws (drop 1 s)) k
parse_from-Yields env elements fields no_start s h k = tt

after_element-Yields :
    (more : Bytes → Parsed Items) (v : Value) (s : Bytes)
    → Formed v
    → ((t : Bytes) → Yields FormedItems (more t))
    → Yields FormedItems (after_element more v s)
unfolding after_element Formed
after_element-Yields more v s p h =
    Yields-if FormedItems (next_is b']' s) _ _ (p, tt)
      (Yields-and_then Any FormedItems (expect b',' s) _ (Any-Yields (expect b',' s)) λ u rest q.
        Yields-and_then FormedItems FormedItems (more (skip_ws rest)) _ (h (skip_ws rest))
          λ vs left r. (p, r))

after_key-Yields :
    (value : Bytes → Parsed Value) (s : Bytes)
    → ((t : Bytes) → Yields Formed (value t))
    → Yields Formed (after_key value s)
unfolding after_key
after_key-Yields value s h =
    Yields-and_then Any Formed (expect b':' (skip_ws s)) _ (Any-Yields (expect b':' (skip_ws s)))
      λ u rest q. h (skip_ws rest)

after_field-Yields :
    (more : Object → Bytes → Parsed Object) (o : Object) (s : Bytes)
    → FormedObject o
    → ((t : Bytes) → Yields FormedObject (more o t))
    → Yields FormedObject (after_field more o s)
unfolding after_field
after_field-Yields more o s p h = Yields-if FormedObject (next_is b'}' s) _ _ p (
    Yields-and_then Any FormedObject (expect b',' s) _ (Any-Yields (expect b',' s))
      λ u rest q. h rest)

mutual
  unfolding parse_value

  value-Yields : (env : Env) (f : ℕ) (s : Bytes) → Yields Formed (parse_value env f s)
  value-Yields env zero s = tt
  value-Yields env (suc f) s =
      parse_from-Yields env (parse_elements env f) (parse_fields env f end) (start_of s) s
        (λ t. elements-Yields env f t) (λ t. fields-Yields env f end t end-Formed)

  elements-Yields : (env : Env) (f : ℕ) (s : Bytes) → Yields FormedItems (parse_elements env f s)
  elements-Yields env zero s = tt
  elements-Yields env (suc f) s =
      Yields-and_then Formed FormedItems (parse_value env f s) _ (value-Yields env f s) λ v rest q.
        after_element-Yields (parse_elements env f) v (skip_ws rest) q
          (λ t. elements-Yields env f t)

  fields-Yields :
      (env : Env) (f : ℕ) (o : Object) (s : Bytes)
      → FormedObject o
      → Yields FormedObject (parse_fields env f o s)
  fields-Yields env zero o s p = tt
  fields-Yields env (suc f) o s p =
      Yields-and_then Any FormedObject (parse_string (skip_ws s)) _
        (Any-Yields (parse_string (skip_ws s)))
        λ k rest q.
          Yields-and_then Formed FormedObject (after_key (parse_value env f) rest) _
            (after_key-Yields (parse_value env f) rest (λ t. value-Yields env f t))
            λ v left r.
              let kept : FormedObject (put k v o) =
                (put-IsSorted k v o p.0, FormedFields-put k v o r p.1) in
              after_field-Yields (parse_fields env f) (put k v o) (skip_ws left) kept
                (λ t. fields-Yields env f (put k v o) t kept)

finished-Formed : (r : Parsed Value) (v : Value) → Yields Formed r → finished r ≡ some v → Formed v
finished-Formed (got w []) v h e = subst Formed same h
  where
    same : w ≡ v
    same = cc
finished-Formed (got w (c ∷ s)) v h e = cc
finished-Formed refused v h e = cc
finished-Formed exhausted v h e = cc

skip_left-Yields : (r : Parsed Value) → Yields Formed r → Yields Formed (skip_left r)
skip_left-Yields (got v s) h = h
skip_left-Yields refused h = h
skip_left-Yields exhausted h = h

-- Every value that the parser makes of a text.
pub parse-Formed : (env : Env) (s : Bytes) (v : Value) → parse env s ≡ some v → Formed v
unfolding parse parse_text
parse-Formed env s v e =
    finished-Formed (parse_text env s) v
      (skip_left-Yields (parse_value env (parse_fuel s) (skip_ws s))
        (value-Yields env (parse_fuel s) (skip_ws s)))
      e
