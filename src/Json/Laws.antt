-- ===== src/Json/Laws.antt =====
-- Laws of objects.
use folk_around.Prelude.{◌≡◌, refl, arith, some, if◌then◌else◌}
use folk_around.Text.{Text, text_eq}
use folk_around.Text.Laws.{text_eq_iff}
use folk_around.Json.{Value, Fields, end, field, get_field, insert_field}

pub get_field-insert_field :
    (key k : Text) (v : Value) (fs : Fields)
    → get_field k (insert_field key v fs) ≡ (if text_eq key k then some v else get_field k fs)
unfolding get_field insert_field
get_field-insert_field key k v end = refl
get_field-insert_field key k v (field j w fs) = ground (
  arith,
  text_eq_iff key k,
  text_eq_iff j key,
  text_eq_iff j k,
  get_field-insert_field key k v fs,
)
