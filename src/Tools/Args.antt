-- ===== src/Tools/Args.antt =====
-- How the handlers read their arguments.
use folk_around.Prelude.{
  ℕ, Bool, true, false, not, ◌&&◌, ◌||◌, List, [], ◌∷◌, Option, none, some, if◌then◌else◌, leb, ◌*◌,
  ◌==◌, within, all,
}
use folk_around.Text.{
  Text, codes, text_eq, contains, is_empty, strip_prefix, is_ascii_digit, is_ascii_alphanumeric,
}
use folk_around.Text.Utf8.{as_bytes, len}
use folk_around.Json.{Value, get, keys, as_str, as_bool, as_object}
use folk_around.Json.Integer.{ℤ, as_i64, as_f64_as_i64}
use folk_around.Effect.{pure, raise}
use folk_around.Tools.Host.{
  invalid_arguments, InteractionMode, interactive, background_only, Action,
}

unfoldable pub str_arg : Value → Text → Option Text
str_arg args key = as_str (get args key)

unfoldable pub bool_arg : Value → Text → Bool → Bool
bool_arg args key default = elim (as_bool (get args key)) [ none ↦ default | some b ↦ b ]

unfoldable pub int_arg : Value → Text → Option ℤ
int_arg args key = elim (as_i64 (get args key)) [
  | none ↦ as_f64_as_i64 (get args key)
  | some n ↦ some n
]

unfoldable pub exact_args : List Text → Option (List Text) → Bool
exact_args allowed none = false
exact_args allowed (some names) = all (contains allowed) names

abbrev names_of : Value → Option (List Text)
names_of args = elim (as_object args) [ none ↦ none | some fs ↦ some (keys fs) ]

-- `Err(InvalidArguments)` as the test that it stands on
unfoldable pub ensure_exact_args : Value → List Text → Bool
ensure_exact_args args allowed = exact_args allowed (names_of args)

unfoldable pub semantic_keys : Bool → List Text
semantic_keys true =
    codes "operation_id"
    ∷ codes "observation_id"
    ∷ codes "tag"
    ∷ codes "value"
    ∷ codes "interaction_mode"
    ∷ []
semantic_keys false =
    codes "operation_id" ∷ codes "observation_id" ∷ codes "tag" ∷ codes "interaction_mode" ∷ []

abbrev operation_byte : ℕ → Bool
operation_byte c = is_ascii_alphanumeric c || c == b'-' || c == b'_' || c == b':'

unfoldable pub valid_operation_id : Text → Bool
valid_operation_id id = not (is_empty id) && leb (len id) 256 && all operation_byte (as_bytes id)

abbrev pub hex_byte_test : ℕ → Bool
hex_byte_test c = is_ascii_digit c || within b'a' b'f' c

unfoldable pub valid_observation_id : Text → Bool
valid_observation_id id = len id == 64 && all hex_byte_test (as_bytes id)

abbrev tag_index : Option Text → Bool
tag_index none = false
tag_index (some index) =
    not (is_empty index) && leb (len index) 4 && all is_ascii_digit (as_bytes index)

unfoldable pub valid_tag : Text → Bool
valid_tag tag = tag_index (strip_prefix (b'e' ∷ []) tag)

abbrev short_value : Option Text → Bool
short_value none = false
short_value (some value) = leb (len value) (16 * 1024)

abbrev known_mode : Option Text → Bool
known_mode none = false
known_mode (some mode) =
    text_eq mode (codes "interactive") || text_eq mode (codes "background_only")

abbrev pub semantic_ids : Option Text → Option Text → Option Text → Bool
semantic_ids (some operation_id) (some observation_id) (some tag) =
    valid_operation_id operation_id && valid_observation_id observation_id && valid_tag tag
semantic_ids _ _ _ = false

unfoldable pub semantic_args_ok : Value → Bool → Bool
semantic_args_ok args set_value =
    ensure_exact_args args (semantic_keys set_value)
    && semantic_ids (str_arg args (codes "operation_id")) (str_arg args (codes "observation_id"))
        (str_arg args (codes "tag"))
    && (not set_value || short_value (str_arg args (codes "value")))
    && known_mode (str_arg args (codes "interaction_mode"))

-- Each of its failures is `InvalidArguments`.
unfoldable pub ensure_semantic_args : Value → Bool → Action (Unit {0})
ensure_semantic_args args set_value =
    if semantic_args_ok args set_value then pure tt else raise invalid_arguments

unfoldable pub interaction_mode_arg : Value → Action InteractionMode
interaction_mode_arg args = elim (str_arg args (codes "interaction_mode")) [
  | none ↦ raise invalid_arguments
  | some mode ↦
      if text_eq mode (codes "interactive")
      then pure interactive
      else if text_eq mode (codes "background_only")
      then pure background_only
      else raise invalid_arguments
]
