-- ===== src/Tools/Required/Table.antt =====
-- The schemas of the table that crates/folk-computer-use/src/lib.rs registers, and its handlers.
use folk_around.Prelude.{
  Bool, true, List, [], ◌∷◌, none, some, ◌≡◌, ap, ◌∙◌, All, All-append, find, Bool-cases, inl, inr,
  subst,
}
use mathlib.Core.Option.{some-injective}
use folk_around.Text.{Text, codes, text_eq, contains}
use folk_around.Text.Laws.{text_eq_iff}
use folk_around.Json.{Value, get, get_field, insert_field, set_index, items}
use folk_around.Core.{AccessMode}
use folk_around.Mcp.{Tool, new_table, call_in, call}
use folk_around.Mcp.Results.{object_schema, empty_schema}
use folk_around.Tools.Host.{Host, History}
use folk_around.Tools.Schemas.{schema, strict_schema}
use folk_around.Tools.Args.{str_arg}
use folk_around.Tools.Registry.{
  command_tools, observation_tools, click_tools, input_tools, element_tools, application_tools,
  all_tools, register_tools,
}
use folk_around.Tools.Registered.{All-register_tools}
use folk_around.Tools.Required.{required_of, RespectsSchema}
use folk_around.Tools.Required.Handlers.{
  shell-Needs, spawn_command-Needs, clipboard_write-Needs, click-Needs, set_value-Needs,
  type_text-Needs, press-Needs, paste-Needs, hotkey-Needs, swipe-Needs, drag-Needs, sleep-Needs,
  open_target-Needs, menu-Needs, perform_action-Needs_on, perform_action-Needs_action, window-Needs,
  app-Needs,
}

module _ (host : Host) where
  command_tools-RespectsSchema : All RespectsSchema (command_tools host)
  unfolding command_tools schema object_schema empty_schema get get_field set_index insert_field
      items codes text_eq
  command_tools-RespectsSchema =
      ((shell-Needs host, tt), (tt, (tt, ((spawn_command-Needs host, tt), tt))))

  observation_tools-RespectsSchema : All RespectsSchema (observation_tools host)
  unfolding observation_tools schema object_schema empty_schema get get_field set_index insert_field
      items codes text_eq
  observation_tools-RespectsSchema =
      (tt, (tt, (tt, (tt, ((clipboard_write-Needs host, tt), (tt, (tt, (tt, (tt, tt)))))))))

  click_tools-RespectsSchema : All RespectsSchema (click_tools host)
  unfolding click_tools schema strict_schema object_schema get get_field set_index insert_field
      items codes text_eq
  click_tools-RespectsSchema = (click-Needs host, tt)

  input_tools-RespectsSchema : All RespectsSchema (input_tools host)
  unfolding input_tools schema object_schema get get_field set_index insert_field items codes
      text_eq
  input_tools-RespectsSchema = (
    (press-Needs host, tt),
    (
      (type_text-Needs host, tt),
      (
        (paste-Needs host, tt),
        (
          (hotkey-Needs host, tt),
          (
            tt,
            (
              (swipe-Needs host _, (swipe-Needs host _, tt)),
              ((drag-Needs host _, (drag-Needs host _, tt)), (tt, tt)),
            ),
          ),
        ),
      ),
    ),
  )

  element_tools-RespectsSchema : All RespectsSchema (element_tools host)
  unfolding element_tools schema strict_schema object_schema get get_field set_index insert_field
      items codes text_eq
  element_tools-RespectsSchema = (
    set_value-Needs host,
    ((perform_action-Needs_on host, (perform_action-Needs_action host, tt)), tt),
  )

  application_tools-RespectsSchema : All RespectsSchema (application_tools host)
  unfolding application_tools schema object_schema get get_field set_index insert_field items codes
      text_eq
  application_tools-RespectsSchema = (
    (window-Needs host, tt),
    (
      (app-Needs host, tt),
      ((open_target-Needs host, tt), ((menu-Needs host, tt), ((sleep-Needs host _, tt), (tt, tt)))),
    ),
  )

  all_tools-RespectsSchema : All RespectsSchema (all_tools host)
  unfolding all_tools
  all_tools-RespectsSchema = All-append RespectsSchema _ _ command_tools-RespectsSchema (
      All-append RespectsSchema _ _ observation_tools-RespectsSchema (
        All-append RespectsSchema _ _ click_tools-RespectsSchema (
          All-append RespectsSchema _ _ input_tools-RespectsSchema (
            All-append RespectsSchema _ _ element_tools-RespectsSchema
              application_tools-RespectsSchema))))

-- What holds of all tools holds of the one that is found.
found-All :
    (P : Tool History → Type 0) (f : Tool History → Bool) (tools : List (Tool History))
    (tool : Tool History)
    → All P tools
    → find f tools ≡ some tool
    → P tool
found-All P f [] tool h e = cc
found-All P f (t ∷ tools) tool (p, h) e = elim (Bool-cases (f t)) [
  | inl yes_here ↦ subst P (some-injective _ _ (rw yes_here at e)) p
  | inr later ↦ found-All P f tools tool h (rw later at e)
]

call_in_found :
    (mode : AccessMode) (tools : List (Tool History)) (name : Text) (args : Value) (h : History)
    (tool : Tool History)
    → find (λ t. text_eq t.name name) tools ≡ some tool
    → (call_in mode tools name args h).1 ≡ (tool.handler args mode h).1
unfolding call_in
call_in_found mode [] name args h tool e = cc
call_in_found mode (t ∷ tools) name args h tool e = elim (Bool-cases (text_eq t.name name)) [
  | inl here ↦
      let same = some-injective _ _ (rw here at e) in
      rw (here, call_in) (ap (λ (u : Tool History). (u.handler args mode h).1) same)
  | inr later ↦ rw (later, call_in) (call_in_found mode tools name args h tool (rw later at e))
]

required-All :
    (P : Text → Type 0) (names : List Text) (key : Text)
    → All P names
    → contains names key ≡ true
    → P key
unfolding contains
required-All P [] key h e = cc
required-All P (name ∷ names) key (p, h) e = elim (Bool-cases (text_eq name key)) [
  | inl same ↦ subst P ((text_eq_iff name key).0 same) p
  | inr other ↦ required-All P names key h (rw other at e)
]

-- A call of a listed tool without a text under a field that its schema requires asks the host for
-- nothing, in every mode.
pub call_without_required :
    (host : Host) (mode : AccessMode) (semantic_click semantic_set_value : Bool) (name key : Text)
    (args : Value) (h : History) (tool : Tool History)
    → find
        (λ (t : Tool History). text_eq t.name name)
        (register_tools host (new_table mode) semantic_click semantic_set_value).tools
      ≡ some tool
    → contains (required_of tool.input_schema) key ≡ true
    → str_arg args key ≡ none
    → (call (register_tools host (new_table mode) semantic_click semantic_set_value) name args h).1
      ≡ h
call_without_required host mode semantic_click semantic_set_value name key args h tool f r e =
    let table = register_tools host (new_table mode) semantic_click semantic_set_value in
    let every =
      All-register_tools RespectsSchema host mode semantic_click semantic_set_value
        (all_tools-RespectsSchema host) in
    let respects = found-All RespectsSchema _ table.tools tool every f in
    call_in_found table.mode table.tools name args h tool f
    ∙ required-All _ (required_of tool.input_schema) key respects r args table.mode h e
