-- ===== src/Generation/Usage.antt =====
-- extractUsageFromJSON of generation_proxy.go: the token counts in an answer.
use nfrx.Prelude.{
  ℕ, Bool, Option, String, false, if◌then◌else◌, ltb, none, some, str_eq, true, ℤ, ◌&&◌, ◌==◌, ◌||◌,
}
use nfrx.Prelude.Int.{pos_part}

-- A decoded JSON value. A number is its integer part; `range` visits the fields in list order.
mutual
  pub data Json : Type 0 where
    null : Json
    boolean : Bool → Json
    number : ℤ → Json
    text : String → Json
    array : Items → Json
    object : Fields → Json

  pub data Items : Type 0 where
    no_items : Items
    item : Json → Items → Items

  pub data Fields : Type 0 where
    no_fields : Fields
    field : String → Json → Fields → Fields

-- m[key]
unfoldable pub get_field : String → Fields → Option Json
get_field key no_fields = none
get_field key (field k v rest) =
    let later = get_field key rest in if str_eq k key then some v else later

positive : Option Json → ℕ
positive (some (number n)) = pos_part n
positive _ = 0

-- numberField; encoding/json decodes a number as a float64.
unfoldable pub number_field : Fields → String → ℕ
unfolding positive get_field
number_field fields key = positive (get_field key fields)

-- The first key, or the second where the first gives nothing.
unfoldable pub either_field : Fields → String → String → ℕ
unfolding number_field
either_field fields first second =
    let n = number_field fields first in if n == 0 then number_field fields second else n

-- The counts, and whether any was found.
unfoldable pub usage_from_value : Json → ℕ × ℕ × Bool
unfolding either_field
usage_from_value (object fields) =
    let tokens_in = either_field fields "prompt_tokens" "input_tokens" in
    let tokens_out = either_field fields "completion_tokens" "output_tokens" in
    if tokens_in == 0 && tokens_out == 0 then (0, 0, false) else (tokens_in, tokens_out, true)
usage_from_value _ = (0, 0, false)

own_usage : Option Json → ℕ × ℕ × Bool
own_usage none = (0, 0, false)
own_usage (some usage) = usage_from_value usage

is_found : ℕ × ℕ → Bool
is_found (tokens_in, tokens_out) = ltb 0 tokens_in || ltb 0 tokens_out

first_found : ℕ × ℕ → ℕ × ℕ → ℕ × ℕ
first_found a b = if is_found a then a else b

own_or : ℕ × ℕ × Bool → ℕ × ℕ → ℕ × ℕ
own_or (tokens_in, tokens_out, found) deeper = if found then (tokens_in, tokens_out) else deeper

unfoldable mutual
  unfolding own_or own_usage get_field usage_from_value first_found is_found

  pub find_usage : Json → ℕ × ℕ
  find_usage (object fields) = own_or (own_usage (get_field "usage" fields)) (find_fields fields)
  find_usage (array items) = find_items items
  find_usage _ = (0, 0)

  pub find_items : Items → ℕ × ℕ
  find_items no_items = (0, 0)
  find_items (item v rest) = first_found (find_usage v) (find_items rest)

  pub find_fields : Fields → ℕ × ℕ
  find_fields no_fields = (0, 0)
  find_fields (field k v rest) = first_found (find_usage v) (find_fields rest)

-- `decode` is json.Unmarshal into a value of any type.
unfoldable pub extract_usage : (String → Option Json) → String → ℕ × ℕ
unfolding find_usage
extract_usage decode data_read =
    if str_eq data_read ""
    then (0, 0)
    else elim (decode data_read) [ some v ↦ find_usage v | none ↦ (0, 0) ]
