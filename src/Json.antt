-- ===== src/Json.antt =====
-- The values that travel in messages: what `JSON.parse` returns and `JSON.stringify` takes, with
-- `undefined`. A number is kept as its text `String(n)`, and an object as its own fields in order.
pub mod Access
use oocsi_web.Common.{
  ℕ, suc, String, Bool, true, false, not, Option, none, some, List, [], ◌∷◌, if◌then◌else◌, str_eq,
  ◌==◌, ◌>>=◌,
}
use oocsi_web.Common.Text.{◌<>◌, show}

mutual
  pub data Value : Type 0 where
    undefined null : Value
    bool : (truth : Bool) → Value
    num : (digits : String) → Value
    str : (text : String) → Value
    arr : (items : Items) → Value
    obj : (fields : Fields) → Value

  pub data Fields : Type 0 where
    end : Fields
    field : (key : String) (value : Value) (others : Fields) → Fields

  pub data Items : Type 0 where
    nil : Items
    cons : (head : Value) (tail : Items) → Items

-- The truth value of `if (v)`; a parsed number is never NaN, and both zeros print as "0".
unfoldable pub truthy : Value → Bool
truthy undefined = false
truthy null = false
truthy (bool b) = b
truthy (num n) = not (str_eq n "0")
truthy (str s) = not (str_eq s "")
truthy (arr xs) = true
truthy (obj fs) = true

-- `typeof v === 'object'`.
unfoldable pub is_object : Value → Bool
is_object null = true
is_object (arr xs) = true
is_object (obj fs) = true
is_object _ = false

unfoldable pub get_field : String → Fields → Value
get_field k end = undefined
get_field k (field j v fs) = if str_eq j k then v else get_field k fs

unfoldable pub has_field : String → Fields → Bool
has_field k end = false
has_field k (field j v fs) = if str_eq j k then true else has_field k fs

unfoldable pub set_field : String → Value → Fields → Fields
set_field k v end = field k v end
set_field k v (field j w fs) = if str_eq j k then field j v fs else field j w (set_field k v fs)

unfoldable pub delete_field : String → Fields → Fields
delete_field k end = end
delete_field k (field j w fs) =
    let rest = delete_field k fs in if str_eq j k then rest else field j w rest

-- `v[key]` for a key that is neither an index nor the name of a method or of `length`.
unfoldable pub property : String → Value → Value
property k (obj fs) = get_field k fs
property k v = undefined

unfoldable pub delete_property : String → Value → Value
delete_property k (obj fs) = obj (delete_field k fs)
delete_property k v = v

item : String → ℕ → Items → Option Value
item k i nil = none
item k i (cons v xs) = if str_eq k (show i) then some v else item k (suc i) xs

unfoldable pub count_items : Items → ℕ
count_items nil = 0
count_items (cons v xs) = suc (count_items xs)

-- `v.hasOwnProperty(key)` and, if it holds, `v[key]`.
unfoldable pub own_property : String → Value → Option Value
unfolding item
own_property k (obj fs) = if has_field k fs then some (get_field k fs) else none
own_property k (arr xs) =
    if str_eq k "length" then some (num (show (count_items xs))) else item k 0 xs
own_property k v = none

-- A field of that name hides the method, and no parsed value makes it a function.
unfoldable pub hides_method : String → Value → Bool
hides_method k (obj fs) = has_field k fs
hides_method k v = false

-- `String(v)`, which a property access and a concatenation make of `v`. It throws (`none`) for an
-- object with a field `toString`, which no parsed value makes a function.
unfoldable mutual
  pub to_string : Value → Option String
  to_string undefined = some "undefined"
  to_string null = some "null"
  to_string (bool true) = some "true"
  to_string (bool false) = some "false"
  to_string (num n) = some n
  to_string (str s) = some s
  to_string (arr xs) = join xs
  to_string (obj fs) = if has_field "toString" fs then none else some "[object Object]"

  -- `xs.join(',')`.
  join : Items → Option String
  join nil = some ""
  join (cons v xs) = do head ← element v; tail ← join_more xs; some (head <> tail)

  join_more : Items → Option String
  join_more nil = some ""
  join_more (cons v xs) = do head ← element v; tail ← join_more xs; some ("," <> head <> tail)

  -- `undefined` and `null` are joined as nothing.
  element : Value → Option String
  element undefined = some ""
  element null = some ""
  element (bool true) = some "true"
  element (bool false) = some "false"
  element (num n) = some n
  element (str s) = some s
  element (arr xs) = join xs
  element (obj fs) = if has_field "toString" fs then none else some "[object Object]"
