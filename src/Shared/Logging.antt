-- ===== src/Shared/Logging.antt =====
-- shared/shared/logging.py, `JsonFormatter` and `configure_logging`. Of the logging package of
-- Python it uses the record, and the loggers with their handlers and levels.
use text.Mathlib.Text.{◌==◌ as str_eq}
use text.Mathlib.TextEquality.{eq_iff}
use ordermesh.Prelude.{
  ap, sym, false, ◌⊎◌, ◌∙◌, arith, ℕ, String, ◌||◌, ◌≡◌, refl, Option, none, some, List, [], ◌∷◌,
  if◌then◌else◌, Bool-cases, inl, inr,
}

-- `logging.LogRecord`; `message` is `record.getMessage()`.
pub record LogRecord (ExcInfo : Type 0) : Type 0 where
  pub levelname : String
  pub name : String
  pub message : String
  pub exc_info : Option ExcInfo

-- The dict of a log line, in insertion order.
abbrev pub Fields : Type 0
Fields = List (String × String)

module _ {ExcInfo : Type 0} (format_exception : ExcInfo → String) where
  -- `if record.exc_info: log["exception"] = …`
  abbrev pub exception_field : Option ExcInfo → Fields
  exception_field none = []
  exception_field (some e) = ("exception", format_exception e) ∷ []

  -- `JsonFormatter(service_name).format(record)` before `json.dumps`, in a context with this request
  -- id.
  unfoldable pub log_fields : String → String → String → LogRecord ExcInfo → Fields
  log_fields service_name timestamp request_id r =
      ("timestamp", timestamp)
      ∷ ("level", r.levelname)
      ∷ ("service", service_name)
      ∷ ("request_id", request_id)
      ∷ ("logger", r.name)
      ∷ ("message", r.message)
      ∷ exception_field r.exc_info

  -- `format`, with `json.dumps` and the clock as arguments.
  unfoldable pub format :
      {Line : Type 0} → (Fields → Line) → String → String → String → LogRecord ExcInfo → Line
  unfolding log_fields
  format dumps service_name timestamp request_id r =
      dumps (log_fields service_name timestamp request_id r)

-- `logging.INFO` and `logging.WARNING`.
abbrev pub info : ℕ
info = 20

abbrev pub warning : ℕ
warning = 30

-- The root logger's handlers and level, and the levels that are set by name.
pub record Loggers (Handler : Type 0) : Type 0 where
  pub handlers : List Handler
  pub level : ℕ
  pub levels : List (String × ℕ)

-- `logging.getLogger(name).setLevel(level)`
abbrev pub set_level : String → ℕ → List (String × ℕ) → List (String × ℕ)
set_level name level [] = (name, level) ∷ []
set_level name level ((n, l) ∷ ls) =
    if str_eq n name then (n, level) ∷ ls else (n, l) ∷ set_level name level ls

-- `stream_handler` is the handler on the standard output with the formatter of the named service.
module _ {Handler : Type 0} (stream_handler : String → Handler) where
  unfoldable pub configure_logging : String → ℕ → Loggers Handler → Loggers Handler
  configure_logging service_name level loggers = record {
    handlers = stream_handler service_name ∷ [];
    level = level;
    levels = set_level "aiormq" warning (set_level "aio_pika" warning loggers.levels);
  }

-- The level that a logger has of its own.
abbrev pub level_of : String → List (String × ℕ) → Option ℕ
level_of name [] = none
level_of name ((n, l) ∷ ls) = if str_eq n name then some l else level_of name ls

apart_sym : (m n : String) → str_eq m n ≡ false → str_eq n m ≡ false
apart_sym m n e = elim (Bool-cases (str_eq n m)) [
  | inr f ↦ f
  | inl f ↦ cc (e, (eq_iff m n).1 (sym ((eq_iff n m).0 f)))
]

not_both :
    (m n name : String) → str_eq m n ≡ false → (str_eq m name ≡ false) ⊎ (str_eq n name ≡ false)
not_both m n name e = elim (Bool-cases (str_eq m name)) [
  | inr f ↦ inl f
  | inl f ↦ inr (ap (λ x. str_eq n x) (sym ((eq_iff m name).0 f)) ∙ apart_sym m n e)
]

level_of-set_level :
    (name n : String) (level : ℕ) (ls : List (String × ℕ))
    → level_of name (set_level n level ls)
      ≡ (if str_eq n name then some level else level_of name ls)
level_of-set_level name n level [] = refl
level_of-set_level name n level ((m, l) ∷ ls) = elim (Bool-cases (str_eq m n)) [
  | inl e ↦ ground (arith, e, (eq_iff m n).0 e)
  | inr e ↦ ground (arith, e, not_both m n name e, level_of-set_level name n level ls)
]

-- Whatever was configured before, the root has one handler, that of the service, and the given level;
-- the loggers of aio_pika and aiormq are at the level of a warning, and every other keeps its own.
pub configure_logging_lem :
    {Handler : Type 0} (stream_handler : String → Handler) (service_name : String) (level : ℕ)
    (loggers : Loggers Handler) (name : String)
    → let after = configure_logging stream_handler service_name level loggers in
      (after.handlers ≡ stream_handler service_name ∷ [])
      × (after.level ≡ level)
      × (level_of name after.levels ≡ (
          if str_eq "aiormq" name || str_eq "aio_pika" name
          then some warning
          else level_of name loggers.levels))
unfolding configure_logging
configure_logging_lem stream_handler service_name level loggers name = (
  refl,
  refl,
  ground (
    arith,
    level_of-set_level name "aiormq" warning (set_level "aio_pika" warning loggers.levels),
    level_of-set_level name "aio_pika" warning loggers.levels,
  ),
)
