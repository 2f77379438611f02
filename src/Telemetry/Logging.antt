-- ===== src/Telemetry/Logging.antt =====
-- services/gateway/telemetry/logging.py. A record is what Python's `logging` makes of a call;
-- `json.dumps` of the ordered object is left out.
pub mod Order
use bedrock_gateway_platform.Base.{
  ℕ, ◌/◌, ◌%◌, String, Bool, not, ◌&&◌, Option, none, some, List, [], ◌∷◌, ◌++◌, contains,
  string_eq, ◌==◌, ltb, if◌then◌else◌,
}
use bedrock_gateway_platform.Base.Int.{ℤ}
use bedrock_gateway_platform.Base.Text.{codes, starts_with, f_string, decimal, lower}
use bedrock_gateway_platform.Dict
use bedrock_gateway_platform.Dict.{Dict}

-- The values of the fields.
pub data Value : Type 0 where
  null : Value
  text : String → Value
  number : ℤ → Value
  boolean : Bool → Value

-- `created` is counted in milliseconds. `extra` holds the attributes that the call added, and
-- `exception` is `formatException` of the exception that was handled, if the call asked for it.
pub record LogRecord : Type 0 where
  pub created : ℕ
  pub levelname : String
  pub name : String
  pub message : String
  pub extra : Dict String Value
  pub exception : Option String

abbrev pub reserved_logrecord_keys : List String
reserved_logrecord_keys =
    "name" ∷ "msg" ∷ "args" ∷ "levelname" ∷ "levelno" ∷ "pathname" ∷ "filename" ∷ "module"
    ∷ "exc_info" ∷ "exc_text" ∷ "stack_info" ∷ "lineno" ∷ "funcName" ∷ "created" ∷ "msecs"
    ∷ "relativeCreated" ∷ "thread" ∷ "threadName" ∷ "processName" ∷ "process" ∷ "message"
    ∷ "taskName" ∷ []

-- k not in _RESERVED_LOGRECORD_KEYS and not k.startswith("_")
abbrev pub is_kept : String → Bool
is_kept k = not (contains k reserved_logrecord_keys) && not (starts_with (codes k) (codes "_"))

unfoldable pub kept : Dict String Value → Dict String Value
kept [] = []
kept ((k, v) ∷ attributes) = let rest = kept attributes in if is_kept k then (k, v) ∷ rest else rest

-- f"{n:03d}" for a number below 1000
abbrev pub three_digits : ℕ → String
three_digits n =
    if ltb n 10
    then f_string ("00" ∷ decimal n ∷ [])
    else if ltb n 100
    then f_string ("0" ∷ decimal n ∷ [])
    else decimal n

-- d.update(other)
unfoldable pub update : Dict String Value → Dict String Value → Dict String Value
update d [] = d
update d ((k, v) ∷ other) = update (Dict.put k v d) other

abbrev pub or_null : Option Value → Value
or_null none = null
or_null (some v) = v

-- The end of the object: an error that was passed, or the exception that was handled.
abbrev pub with_error : Value → Option String → Dict String Value → Dict String Value
with_error null none d = d
with_error null (some e) d = Dict.put "error" (text e) d
with_error error exception d = Dict.put "error" error d

-- `date` is `time.strftime("%Y-%m-%dT%H:%M:%S", time.gmtime(seconds))`.
module _ (date : ℕ → String) where
  unfoldable pub iso_ts : ℕ → String
  iso_ts created = f_string (date (created / 1000) ∷ "." ∷ three_digits (created % 1000) ∷ "Z" ∷ [])

  -- `JsonFormatter.format`, up to the object that is dumped.
  unfoldable pub format : LogRecord → Dict String Value
  format r =
      let extra = kept r.extra in
      let request_id = or_null (Dict.get "request_id" extra) in
      let error = or_null (Dict.get "error" extra) in
      let fields = Dict.pop "error" (Dict.pop "request_id" extra) in
      let first =
        ("ts", text (iso_ts r.created))
        ∷ ("level", text r.levelname)
        ∷ ("logger", text r.name)
        ∷ ("request_id", request_id)
        ∷ [] in
      with_error error r.exception (Dict.put "message" (text r.message) (update first fields))

abbrev pub optional_text : Option String → Value
optional_text none = null
optional_text (some s) = text s

abbrev pub same_ignoring_case : String → String → Bool
same_ignoring_case s lowered =
    let t = lower (codes s) in starts_with t (codes lowered) && starts_with (codes lowered) t

-- The level of the method `level.lower()` of a logger, and of `info` where there is no such method. The
-- methods that are no levels, such as `exception` and `log`, are left out; no caller names them.
unfoldable pub level_of : String → String
level_of level =
    if same_ignoring_case level "debug"
    then "DEBUG"
    else if same_ignoring_case level "warning"
    then "WARNING"
    else if same_ignoring_case level "warn"
    then "WARNING"
    else if same_ignoring_case level "error"
    then "ERROR"
    else if same_ignoring_case level "critical"
    then "CRITICAL"
    else if same_ignoring_case level "fatal"
    then "CRITICAL"
    else "INFO"

-- The record of a call of `log_event`, on a logger that is enabled for the level. `extra` starts with
-- the two named arguments. `logging` itself raises KeyError for a field that is named like an attribute of
-- a record, "message" or "asctime"; that is left out, no caller passes one.
unfoldable pub log_event :
    ℕ → String → String → String → Option String → Option String → Dict String Value → LogRecord
log_event now logger level message request_id error fields = record {
  created = now;
  levelname = level_of level;
  name = logger;
  message = message;
  extra = ("request_id", optional_text request_id) ∷ ("error", optional_text error) ∷ fields;
  exception = none;
}

-- The handlers of the root logger: those of this module, or others.
pub data LogHandler : Type 0 where
  gateway_handler : LogHandler
  other_handler : String → LogHandler

pub record LoggingState : Type 0 where
  pub root_level : String
  pub handlers : List LogHandler
  pub levels : Dict String String

abbrev pub without_ours : List LogHandler → List LogHandler
without_ours [] = []
without_ours (gateway_handler ∷ hs) = without_ours hs
without_ours (other_handler name ∷ hs) = other_handler name ∷ without_ours hs

-- `upper` is `str.upper`.
unfoldable pub configure_logging : (String → String) → String → String → LoggingState → LoggingState
configure_logging upper service_name level state = record {
  root_level = upper level;
  handlers = without_ours state.handlers ++ gateway_handler ∷ [];
  levels = Dict.put service_name (upper level) state.levels;
}
