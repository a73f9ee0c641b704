-- ===== src/Tools/Host.antt =====
-- Errors of the tools, the requests that the tools make of the host, and the monad of a handler.
-- The host (processes, rs_peekaboo, praefectus, the file system) is outside of the source: its
-- answer to a request is a function of the requests made before, newest first.
use folk_around.Prelude.{ℕ, Bool, List, ◌∷◌, Option, none, some, ◌++◌}
use folk_around.Text.{Text, Bytes, codes}
use folk_around.Json.{Value}
use folk_around.Json.Integer.{ℤ}
use folk_around.Effect.{Result, ok, err, Exec, raise, pure}
use folk_around.Core.{AccessMode, full, limited, sandbox}
use folk_around.Mcp.Results.{err_result}

-- Errors of the crates below are kept by kind; their texts are never shown, except for `json`.
pub data ToolExecError : Type 0 where
  missing : Text → ToolExecError
  invalid_arguments io blocked peekaboo : ToolExecError
  json : Text → ToolExecError
  praefectus semantic semantic_unavailable : ToolExecError
  coordinates_unavailable screenshot_reference_unavailable : ToolExecError

-- the `#[error("…")]` texts
unfoldable pub error_text : ToolExecError → Text
error_text (missing name) = codes "missing " ++ name
error_text invalid_arguments = codes "invalid tool arguments"
error_text io = codes "host I/O request failed"
error_text blocked = codes "action blocked in this mode"
error_text peekaboo = codes "computer-use backend request failed"
error_text (json message) = message
error_text praefectus = codes "computer-use protocol request failed"
error_text semantic = codes "semantic computer-use target is unavailable"
error_text semantic_unavailable = codes "semantic computer-use backend is unavailable"
error_text coordinates_unavailable = codes "raw coordinate actions are unavailable"
error_text screenshot_reference_unavailable = codes "safe screenshot reference is unavailable"

pub data InteractionMode : Type 0 where
  interactive background_only : InteractionMode

-- `screen` and `window` are the modes that the source names.
pub data ImageMode : Type 0 where
  screen window : ImageMode
  other_mode : Text → ImageMode

pub data Direction : Type 0 where
  left right up down : Direction

pub data Target : Type 0 where
  query : Text → Option Text → Target
  point : ℤ → ℤ → Target

pub record Bounds : Type 0 where
  pub x : ℤ
  pub y : ℤ
  pub width : ℤ
  pub height : ℤ

-- One constructor for each way in which a handler reaches the host.
pub data HostCall : Type 0 where
  run : (program : Text) (args : List Text) (cwd : Option Text) → HostCall
  spawn : (program : Text) (args : List Text) → HostCall
  clipboard_get doctor_report screens permission_probe permission_grant : HostCall
  clipboard_put : Text → HostCall
  new_artifact : HostCall
  capture_app : (app path : Text) (retina : Bool) → HostCall
  capture_image : ImageMode → (path : Text) (retina : Bool) → HostCall
  open_capture remove_capture : (path : Text) → HostCall
  observe : HostCall
  semantic_invoke : (operation_id observation_id tag : Text) → InteractionMode → HostCall
  semantic_set : (operation_id observation_id tag value : Text) → InteractionMode → HostCall
  type_keys : Text → (clear press_return : Bool) → Option ℕ → (app : Option Text) → HostCall
  press_key : Text → ℕ → Option ℕ → HostCall
  paste_text : Text → HostCall
  press_hotkey : List Text → HostCall
  scroll_by : Direction → ℕ → HostCall
  move_cursor : Target → HostCall
  ax_action : Target → (action : Text) → HostCall
  open_path : (target : Text) (app : Option Text) (no_focus : Bool) → HostCall
  clean_cache : (every : Bool) (snapshot : Option Text) → HostCall
  window_action : (action : Text) (app : Option Text) → Option Bounds → HostCall
  app_action : (action app : Text) → HostCall
  menu_action : (action app : Text) (menu item : Option Text) → HostCall

abbrev pub History : Type 0
History = List HostCall

-- `std::process::Output`
pub record Output : Type 0 where
  pub stdout : Bytes
  pub stderr : Bytes
  pub code : Option ℤ

-- `rs_peekaboo::ImageCapture`, as far as the source reads it
pub record ImageCapture : Type 0 where
  pub path : Text
  pub mode : ImageMode
  pub mime_type : Text
  pub ephemeral : Bool

-- `folk_core::ArtifactFile`
pub record Artifact : Type 0 where
  pub path : Text
  pub locator : Text

-- An opened capture: its metadata, its permission bits after they were restricted, and the parts
-- in which its content is read up to the end.
pub record CaptureFile : Type 0 where
  pub is_file : Bool
  pub size : ℕ
  pub mode : ℕ
  pub reads : List Bytes

-- What the host answers, and the functions of the crates below that have no effect.
pub record Host : Type 0 where
  pub output : History → HostCall → Result Output ToolExecError
  pub done : History → HostCall → Result (Unit {0}) ToolExecError
  pub text : History → HostCall → Result Text ToolExecError
  pub value : History → HostCall → Result Value ToolExecError
  pub capture : History → HostCall → Result ImageCapture ToolExecError
  pub artifact : History → HostCall → Result Artifact ToolExecError
  pub file : History → HostCall → Result CaptureFile ToolExecError
  pub unix : Bool
  pub os : Text
  pub arch : Text
  pub parse_image_mode : Text → Result ImageMode ToolExecError
  pub image_mode_value : ImageMode → Value
  pub sha256_hex : Bytes → Text
  pub to_string : Value → Text
  pub to_string_pretty : Value → Option Text
  pub sleep_millis : Option Value → ℕ

-- A handler's closure: it may fail, and the requests that it made stay made.
abbrev pub Action {ℓ} : Type ℓ → Type ℓ
Action A = Exec History ToolExecError A

-- One request: it is added to the history, and the host answers it.
abbrev pub ask {ℓ} :
    {A : Type ℓ} → (History → HostCall → Result A ToolExecError) → HostCall → Action A
ask answer request h = (answer h request, request ∷ h)

-- `option.ok_or(error)?`
abbrev pub ok_or {ℓ} : {A : Type ℓ} → Option A → ToolExecError → Action A
ok_or none e = raise e
ok_or (some a) e = pure a

abbrev pub flatten_result : Result Value ToolExecError → Value
flatten_result (ok value) = value
flatten_result (err e) = err_result (error_text e)

-- `flatten(result)`
abbrev pub flatten : Action Value → History → Value × History
flatten m h = let (r, h') = m h in (flatten_result r, h')

unfoldable pub ensure_mutation : AccessMode → Action (Unit {0})
ensure_mutation full = pure tt
ensure_mutation limited = raise blocked
ensure_mutation sandbox = raise blocked
