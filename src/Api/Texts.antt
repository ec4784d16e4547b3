-- ===== src/Api/Texts.antt =====
-- The texts that src/api.ts makes of values: the name of a method, and the topics of an error.
use Prim.Native.String.{◌++◌ as text_append}
use proof_of_authority_block.Common.{String, Bool, true, false, Option, none, some, if◌then◌else◌}
use proof_of_authority_block.Json.{
  Value, Items, undefined, null, bool, num, str, arr, obj, nil, cons, get, print_number,
}

abbrev both_texts : Option String → Option String → Option String
both_texts none b = none
both_texts (some a) none = none
both_texts (some a) (some b) = some (text_append a b)

-- `String(v)`, or what `join` makes of `v` as an element of an array; `none` is the TypeError of an
-- object whose member `toString` cannot be called.
unfoldable mutual
  unfolding print_number

  pub to_text : Bool → Value → Option String
  to_text in_array undefined = some (if in_array then "" else "undefined")
  to_text in_array null = some (if in_array then "" else "null")
  to_text in_array (bool b) = some (if b then "true" else "false")
  to_text in_array (num n) = some (print_number n)
  to_text in_array (str s) = some s
  to_text in_array (arr vs) = join true vs
  to_text in_array (obj fs) = elim (get "toString" fs) [
    | undefined ↦ some "[object Object]"
    | _ ↦ none
  ]

  -- The elements of an array, with a comma between them.
  pub join : Bool → Items → Option String
  join first nil = some ""
  join first (cons v vs) =
      both_texts (some (if first then "" else ",")) (both_texts (to_text true v) (join false vs))
