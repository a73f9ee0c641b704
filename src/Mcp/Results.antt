-- ===== src/Mcp/Results.antt =====
-- Tool results and input schemas of crates/folk-mcp/src/lib.rs.
use folk_around.Prelude.{List, [], ◌∷◌, true, map, ◌≡◌, refl, some}
use folk_around.Text.{Text, codes, text_eq}
use folk_around.Json.{
  Value, bool, string, object_of, array_of, set_index, get, get_field, insert_field,
}

unfoldable pub text_result : Text → Value
text_result text = object_of (
    (
      codes "content",
      array_of (
          object_of ((codes "type", string (codes "text")) ∷ (codes "text", string text) ∷ [])
          ∷ []),
    )
    ∷ [])

unfoldable pub err_result : Text → Value
unfolding text_result set_index
err_result text = set_index (text_result text) (codes "isError") (bool true)

module _ (to_string : Value → Text) where
  abbrev pub json_text_result : Value → Value
  json_text_result value = text_result (to_string value)

abbrev pub string_value : Text → Value
string_value s = string s

abbrev with_required : Value → List Text → Value
with_required schema [] = schema
with_required schema (name ∷ names) =
    set_index schema (codes "required") (array_of (map string_value (name ∷ names)))

unfoldable pub object_schema : List (Text × Value) → List Text → Value
unfolding set_index
object_schema properties required =
    with_required
      (object_of
        ((codes "type", string (codes "object")) ∷ (codes "properties", object_of properties) ∷ []))
      required

abbrev property : Text → Text → Value
property type description =
    object_of ((codes "type", string type) ∷ (codes "description", string description) ∷ [])

unfoldable pub string_property : Text → Value
string_property description = property (codes "string") description

unfoldable pub number_property : Text → Value
number_property description = property (codes "number") description

unfoldable pub empty_schema : Value
empty_schema =
    object_of ((codes "type", string (codes "object")) ∷ (codes "properties", object_of []) ∷ [])

-- An error result is marked, and carries its text as a plain result does.
pub err_result-get :
    (text : Text)
    → (get (err_result text) (codes "isError") ≡ some (bool true))
      × (get (err_result text) (codes "content") ≡ get (text_result text) (codes "content"))
unfolding err_result get get_field insert_field codes text_eq
err_result-get text = (refl, refl)
