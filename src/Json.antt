-- ===== src/Json.antt =====
-- Decoded JSON (`any` of encoding/json) and the float64 of its numbers. The parser of encoding/json
-- and the float operations are parameters.
use dayz_behaviour.Prelude.{Bool, Option, none, some, String, if◌then◌else◌}
use dayz_behaviour.Prelude.Text.{str_eq}

mutual
  pub data Json (N : Type 0) : Type 0 where
    null : Json N
    bool : Bool → Json N
    number : N → Json N
    text : String → Json N
    array : Items N → Json N
    object : Fields N → Json N

  pub data Items (N : Type 0) : Type 0 where
    nil : Items N
    item : Json N → Items N → Items N

  -- the members of an object, in the order of the text
  pub data Fields (N : Type 0) : Type 0 where
    end : Fields N
    field : String → Json N → Fields N → Fields N

-- float64, as far as the code compares it; `parse` is encoding/json on one whole text
pub record JsonLib : Type 1 where
  pub Number : Type 0
  pub lt : Number → Number → Bool
  pub le : Number → Number → Bool
  pub zero_number : Number
  pub one_number : Number
  pub parse : String → Option (Json Number)

module _ {N : Type 0} where
  -- fields[key] of a map[string]any: the last member of a repeated key
  unfoldable pub get_field : String → Fields N → Option (Json N)
  get_field key end = none
  get_field key (field k v rest) =
      let later = get_field key rest in
      elim later [ some w ↦ some w | none ↦ if str_eq k key then some v else none ]

  unfoldable pub as_text : Option (Json N) → Option String
  as_text (some (text s)) = some s
  as_text _ = none

  unfoldable pub as_number : Option (Json N) → Option N
  as_number (some (number n)) = some n
  as_number _ = none
