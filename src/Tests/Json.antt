-- ===== src/Tests/Json.antt =====
-- A small type of JSON values, for runs of the bridge.
use bssl_ram.Prelude.{ℕ, ◌≡◌, refl, Bool, Option, none, some, List, [], ◌∷◌, arith, if◌then◌else◌}
use bssl_ram.Prelude.Map
use bssl_ram.Prelude.Text.{Text, text, text_eq, beq_text}
use bssl_ram.Bridge.Session.Reading.{IsJson}
use bssl_ram.Http.{Json}

mutual
  pub data Value : Type 0 where
    nothing : Value
    boolean : Bool → Value
    natural : ℕ → Value
    characters : Text → Value
    fields : Fields → Value

  pub data Fields : Type 0 where
    end : Fields
    field : Text → Value → Fields → Fields

abbrev pub fields_of : List (Text × Value) → Fields
fields_of [] = end
fields_of ((k, v) ∷ rest) = field k v (fields_of rest)

abbrev pub elements_of : List Value → Fields
elements_of [] = end
elements_of (v ∷ rest) = field [] v (elements_of rest)

abbrev pub find_field : Fields → Text → Option Value
find_field end key = none
find_field (field k v rest) key = if beq_text k key then some v else find_field rest key

abbrev pub get_field : Value → Text → Option Value
get_field (fields fs) key = find_field fs key
get_field _ key = none

abbrev pub set_field : Value → Text → Value → Option Value
set_field (fields fs) key v = some (fields (field key v fs))
set_field _ key v = none

abbrev pub characters_of : Value → Option Text
characters_of (characters s) = some s
characters_of _ = none

abbrev pub boolean_of : Value → Option Bool
boolean_of (boolean b) = some b
boolean_of _ = none

abbrev pub kind_frame : Text → Value
kind_frame kind = fields (field (text "kind") (characters kind) end)

-- A text is read as an object of that kind; every value is written as the two bytes of an empty
-- object.
abbrev pub small_json : Json Value
small_json = record {
  from_slice = λ bytes. some (kind_frame bytes);
  to_vec = λ v. some (123 ∷ 125 ∷ []);
  get = get_field;
  set = set_field;
  as_str = characters_of;
  as_bool = boolean_of;
  null = nothing;
  object = λ fs. fields (fields_of fs);
  string = characters;
  bool = boolean;
  number = natural;
  array = λ vs. fields (elements_of vs);
}

find_field-lookup :
    (fs : List (Text × Value)) (key : Text) → find_field (fields_of fs) key ≡ Map.lookup key fs
unfolding Map.lookup
find_field-lookup [] key = refl
find_field-lookup ((k, v) ∷ rest) key = ground (arith, find_field-lookup rest key)

pub small_json-IsJson : IsJson small_json
small_json-IsJson = record { get_object = find_field-lookup; as_bool_bool = λ b. refl }
