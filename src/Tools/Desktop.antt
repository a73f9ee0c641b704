-- ===== src/Tools/Desktop.antt =====
-- Clipboard, permissions, semantic actions, keyboard and pointer.
use folk_around.Prelude.{
  ℕ, suc, zero, ◌%◌, ◌^◌, Bool, true, false, List, [], ◌∷◌, ◌++◌, map, Option, none, some,
  if◌then◌else◌, ◌==◌,
}
use folk_around.Text.{Text, codes, text_eq, is_empty, trim}
use folk_around.Json.{Value, get, object_of, number, pos_int}
use folk_around.Json.Integer.{ℤ, pos, negsuc, as_u64}
use folk_around.Effect.{pure, raise, ◌>>=◌, ◌>>◌}
use folk_around.Core.{AccessMode}
use folk_around.Mcp.Results.{text_result, json_text_result}
use folk_around.Tools.Host.{
  missing, coordinates_unavailable, clipboard_get, clipboard_put, doctor_report, screens,
  permission_probe, permission_grant, observe, semantic_invoke, semantic_set, type_keys, press_key,
  paste_text, press_hotkey, scroll_by, move_cursor, ax_action, open_path, clean_cache, History,
  Direction, left, right, up, down, Target, query, point, Host, Action, ask, ok_or, flatten,
  ensure_mutation,
}
use folk_around.Tools.Args.{str_arg, bool_arg, int_arg, ensure_semantic_args, interaction_mode_arg}

-- `str_arg(&args, name).ok_or(Missing(name))?`
abbrev pub required : Value → Text → Action Text
required args name = ok_or (str_arg args name) (missing name)

abbrev pub required_int : Value → Text → Action ℤ
required_int args name = ok_or (int_arg args name) (missing name)

unfoldable pub split_on : ℕ → Text → Text → List Text
split_on sep cur [] = cur ∷ []
split_on sep cur (c ∷ cs) =
    let rest = split_on sep (if c == sep then [] else cur ++ c ∷ []) cs in
    if c == sep then cur ∷ rest else rest

-- `as u32`
abbrev pub u32_mod : ℕ
u32_mod = 2 ^ 32

-- `int_arg(…).unwrap_or(1).max(1) as u32`
abbrev repeat_count : Option ℤ → ℕ
repeat_count none = 1
repeat_count (some (pos zero)) = 1
repeat_count (some (pos (suc n))) = suc n % u32_mod
repeat_count (some (negsuc n)) = 1

abbrev int_or_zero : Option ℤ → ℤ
int_or_zero none = pos 0
int_or_zero (some n) = n

-- `n.unsigned_abs().max(1) as u32`
abbrev magnitude : ℤ → ℕ
magnitude (pos zero) = 1
magnitude (pos (suc n)) = suc n % u32_mod
magnitude (negsuc n) = suc n % u32_mod

abbrev vertical : ℤ → Direction × ℕ
vertical (pos n) = (up, magnitude (pos n))
vertical (negsuc n) = (down, magnitude (negsuc n))

unfoldable pub scroll_amount : ℤ → ℤ → Direction × ℕ
scroll_amount (pos zero) dy = vertical dy
scroll_amount (pos (suc n)) dy = (right, magnitude (pos (suc n)))
scroll_amount (negsuc n) dy = (left, magnitude (negsuc n))

module _ (host : Host) where
  unfoldable pub clipboard_read : History → Value × History
  clipboard_read = flatten do
    text ← ask host.text clipboard_get
    pure (text_result (if is_empty text then codes "(empty)" else text))

  unfoldable pub clipboard_write : Value → AccessMode → History → Value × History
  clipboard_write args mode = flatten do
    ensure_mutation mode
    text ← required args (codes "text")
    ask host.done (clipboard_put text)
    pure (text_result (codes "copied to clipboard"))

  unfoldable pub doctor : History → Value × History
  doctor =
      flatten
        do report ← ask host.value doctor_report; pure (json_text_result host.to_string report)

  unfoldable pub list_screens : AccessMode → History → Value × History
  list_screens mode =
      flatten do found ← ask host.value screens; pure (json_text_result host.to_string found)

  abbrev asks_grant : Option Text → Bool
  asks_grant none = false
  asks_grant (some action) = text_eq action (codes "grant")

  unfoldable pub permissions : Value → AccessMode → History → Value × History
  permissions args mode = flatten do
    value ←
        (if asks_grant (str_arg args (codes "action"))
          then (do ensure_mutation mode; ask host.value permission_grant)
          else ask host.value permission_probe)
    pure (json_text_result host.to_string value)

  unfoldable pub ui_snapshot : AccessMode → History → Value × History
  ui_snapshot mode =
      flatten
        do observation ← ask host.value observe; pure (json_text_result host.to_string observation)

  unfoldable pub click : Value → AccessMode → History → Value × History
  click args mode = flatten do
    ensure_mutation mode
    ensure_semantic_args args false
    operation_id ← required args (codes "operation_id")
    observation_id ← required args (codes "observation_id")
    tag ← required args (codes "tag")
    interaction_mode ← interaction_mode_arg args
    ensure_mutation mode
    ask host.value (semantic_invoke operation_id observation_id tag interaction_mode)

  unfoldable pub set_value : Value → AccessMode → History → Value × History
  set_value args mode = flatten do
    ensure_mutation mode
    ensure_semantic_args args true
    operation_id ← required args (codes "operation_id")
    observation_id ← required args (codes "observation_id")
    tag ← required args (codes "tag")
    value ← required args (codes "value")
    interaction_mode ← interaction_mode_arg args
    ensure_mutation mode
    ask host.value (semantic_set operation_id observation_id tag value interaction_mode)

  unfoldable pub type_text : Value → AccessMode → History → Value × History
  type_text args mode = flatten do
    ensure_mutation mode
    text ← required args (codes "text")
    ask host.done (
        type_keys text (bool_arg args (codes "clear") false) (bool_arg args (codes "return") false)
          (as_u64 (get args (codes "delay_ms"))) (str_arg args (codes "app")))
    pure (text_result (codes "typed"))

  unfoldable pub press : Value → AccessMode → History → Value × History
  press args mode = flatten do
    ensure_mutation mode
    key ← required args (codes "key")
    ask host.done (
        press_key key (repeat_count (int_arg args (codes "count")))
          (as_u64 (get args (codes "delay_ms"))))
    pure (text_result (codes "pressed"))

  unfoldable pub paste : Value → AccessMode → History → Value × History
  paste args mode = flatten do
    ensure_mutation mode
    text ← required args (codes "text")
    ask host.done (paste_text text)
    pure (text_result (codes "pasted"))

  unfoldable pub hotkey : Value → AccessMode → History → Value × History
  hotkey args mode = flatten do
    ensure_mutation mode
    names ← required args (codes "keys")
    ask host.done (press_hotkey (map trim (split_on b'+' [] names)))
    pure (text_result (codes "hotkey pressed"))

  unfoldable pub scroll : Value → AccessMode → History → Value × History
  scroll args mode = flatten do
    ensure_mutation mode
    let dx = int_or_zero (int_arg args (codes "dx"))
    let dy = int_or_zero (int_arg args (codes "dy"))
    ask host.done (scroll_by (scroll_amount dx dy).0 (scroll_amount dx dy).1)
    pure (text_result (codes "scrolled"))

  unfoldable pub swipe : Value → AccessMode → History → Value × History
  swipe args mode = flatten do ensure_mutation mode; raise coordinates_unavailable

  unfoldable pub drag : Value → AccessMode → History → Value × History
  drag args mode = flatten do ensure_mutation mode; raise coordinates_unavailable

  -- `praefectus_adapter::execute_move` never returns a response.
  unfoldable pub execute_move : AccessMode → ℤ → ℤ → Action (Option Value)
  execute_move mode x y = do ensure_mutation mode; raise coordinates_unavailable

  abbrev finish_move : Target → Action Value
  finish_move target = do ask host.done (move_cursor target); pure (text_result (codes "moved"))

  abbrev move_by_query : AccessMode → Value → Option Text → Action Value
  move_by_query mode args (some element_id) =
      finish_move (query element_id (str_arg args (codes "snapshot")))
  move_by_query mode args none = do
    x ← required_int args (codes "x")
    y ← required_int args (codes "y")
    response ← execute_move mode x y
    elim response [ none ↦ finish_move (point x y) | some value ↦ pure value ]

  unfoldable pub move_pointer : Value → AccessMode → History → Value × History
  unfolding execute_move
  move_pointer args mode =
      flatten do ensure_mutation mode; move_by_query mode args (str_arg args (codes "element_id"))

  unfoldable pub perform_action : Value → AccessMode → History → Value × History
  perform_action args mode = flatten do
    ensure_mutation mode
    on ← required args (codes "on")
    action ← required args (codes "action")
    ask host.done (ax_action (query on (str_arg args (codes "snapshot"))) action)
    pure (text_result (codes "action performed"))

  unfoldable pub open_target : Value → AccessMode → History → Value × History
  open_target args mode = flatten do
    ensure_mutation mode
    target ← required args (codes "target")
    ask host.done
        (open_path target (str_arg args (codes "app")) (bool_arg args (codes "no_focus") false))
    pure (text_result (codes "opened"))

  unfoldable pub clean : Value → AccessMode → History → Value × History
  clean args mode = flatten do
    ensure_mutation mode
    removed ← ask host.value (
        clean_cache (bool_arg args (codes "all_snapshots") false) (str_arg args (codes "snapshot")))
    pure (json_text_result host.to_string (object_of ((codes "removed", removed) ∷ [])))

  -- The time that passes is no part of the model.
  unfoldable pub sleep : Value → History → Value × History
  sleep args h = (
    json_text_result host.to_string (
        object_of (
          (codes "slept_ms", number (pos_int (host.sleep_millis (get args (codes "seconds")))))
          ∷ [])),
    h,
  )
