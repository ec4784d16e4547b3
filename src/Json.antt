-- ===== src/Json.antt =====
-- The values that reach the node as parsed JSON, the reading of an object's fields, and
-- `JSON.stringify` without indentation (used by src/transaction.ts and src/block.ts for hashing).
use Prim.Native.String.{◌++◌}
use Prim.Native.Char.{code}
use proof_of_authority_block.Common.{
  ℕ, zero, suc, ◌+◌, ◌/◌, ◌%◌, String, Bool, true, false, Option, none, some, ltb, ◌==◌, ◌===◌,
  if◌then◌else◌,
}
use proof_of_authority_block.Common.Int.{ℤ, pos, negsuc}

-- `int` is an integer-valued number that prints in plain digits; `other` is any other number, by
-- the text it prints as.
pub data Number : Type 0 where
  int : ℤ → Number
  other : String → Number

mutual
  pub data Fields : Type 0 where
    end : Fields
    field : String → Value → Fields → Fields

  pub data Items : Type 0 where
    nil : Items
    cons : Value → Items → Items

  pub data Value : Type 0 where
    undefined null : Value
    bool : Bool → Value
    num : Number → Value
    str : String → Value
    arr : Items → Value
    obj : Fields → Value

-- `o.key`
unfoldable pub get : String → Fields → Value
get k end = undefined
get k (field j v fs) = if j === k then v else get k fs

-- The fields of a value whose `typeof` is 'object' and which is not null. An array is an object
-- too, and has none of the fields that the node reads.
unfoldable pub object_fields : Value → Option Fields
object_fields (obj fs) = some fs
object_fields (arr xs) = some end
object_fields undefined = none
object_fields null = none
object_fields (bool b) = none
object_fields (num n) = none
object_fields (str s) = none

-- `typeof v === 'string'`, with the string.
unfoldable pub as_string : Value → Option String
as_string (str s) = some s
as_string undefined = none
as_string _ = none

digit : ℕ → String
digit d =
    if d == 0
    then "0"
    else if d == 1
    then "1"
    else if d == 2
    then "2"
    else if d == 3
    then "3"
    else if d == 4
    then "4"
    else if d == 5
    then "5"
    else if d == 6
    then "6"
    else if d == 7
    then "7"
    else if d == 8
    then "8"
    else if d == 9
    then "9"
    else if d == 10
    then "a"
    else if d == 11
    then "b"
    else if d == 12
    then "c"
    else if d == 13
    then "d"
    else if d == 14
    then "e"
    else "f"

-- The decimal digits of `n`, in front of `acc`. A number has fewer digits than its value plus one.
decimal_from : ℕ → ℕ → String → String
unfolding digit
decimal_from zero n acc = acc
decimal_from (suc fuel) n acc =
    let rest = decimal_from fuel (n / 10) (digit (n % 10) ++ acc) in
    if ltb n 10 then digit n ++ acc else rest

unfoldable pub decimal : ℕ → String
unfolding decimal_from
decimal n = decimal_from (suc n) n ""

unfoldable pub print_number : Number → String
unfolding decimal
print_number (int (pos n)) = decimal n
print_number (int (negsuc n)) = "-" ++ decimal (n + 1)
print_number (other text) = text

-- One character of a quoted text, of code point `c`.
escape : ℕ → String → String
unfolding digit
escape c plain =
    if c == 34
    then "\\\""
    else if c == 92
    then "\\\\"
    else if c == 8
    then "\\b"
    else if c == 9
    then "\\t"
    else if c == 10
    then "\\n"
    else if c == 12
    then "\\f"
    else if c == 13
    then "\\r"
    else if ltb c 32
    then "\\u00" ++ digit (c / 16) ++ digit (c % 16)
    else plain

escape_all : String → String
unfolding escape
escape_all String.[] = ""
escape_all (String.◌∷◌ c s) = escape (code c) (String.◌∷◌ c String.[]) ++ escape_all s

unfoldable pub quote : String → String
unfolding escape_all
quote s = "\"" ++ (escape_all s ++ "\"")

separator : Bool → String
separator first = if first then "" else ","

-- `JSON.stringify`: an undefined member of an object is left out, one of an array prints as null.
unfoldable mutual
  unfolding quote separator print_number

  pub stringify : Value → String
  stringify undefined = "null"
  stringify null = "null"
  stringify (bool b) = if b then "true" else "false"
  stringify (num n) = print_number n
  stringify (str s) = quote s
  stringify (arr xs) = "[" ++ (stringify_items true xs ++ "]")
  stringify (obj fs) = "{" ++ (stringify_fields true fs ++ "}")

  pub stringify_items : Bool → Items → String
  stringify_items first nil = ""
  stringify_items first (cons v xs) = separator first ++ (stringify v ++ stringify_items false xs)

  pub stringify_fields : Bool → Fields → String
  stringify_fields first end = ""
  stringify_fields first (field k undefined fs) = stringify_fields first fs
  stringify_fields first (field k v fs) =
      separator first ++ (quote k ++ (":" ++ (stringify v ++ stringify_fields false fs)))
