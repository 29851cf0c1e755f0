-- ===== src/Client/Init/Loggers.antt =====
-- `ConsoleLogger` and `FileLogger`, which `Client.__init__` takes for a logger (pulsar/__init__.py).
use pulsar_client_python.Base.{◌≡◌, ◌↔◌, true, [], ◌∷◌}
use pulsar_client_python.Python.Result.{Result, ok, ◌>>◌, >>=-eq-ok}
use pulsar_client_python.Client.Argument.{
  Kind, Arg, str_type, instance_of, is_instance, must, run_checks, run_checks_iff,
}

-- A logger, by its attributes.
pub data Logger : Type 0 where
  console_logging : Arg → Logger
  file_logging : Arg → Arg → Logger

-- `ConsoleLogger.__init__`
unfoldable pub console_logger : Arg → Result Logger
console_logger level = do
  run_checks (must (instance_of Kind.log_level) level ∷ [])
  ok (console_logging level)

-- `FileLogger.__init__`
unfoldable pub file_logger : Arg → Arg → Result Logger
file_logger level path = do
  run_checks (must (instance_of Kind.log_level) level ∷ must str_type path ∷ [])
  ok (file_logging level path)

-- A logger comes into being exactly from a level, and for a file a text, and keeps them.
pub file_logger_iff :
    (level path : Arg) (l : Logger)
    → (file_logger level path ≡ ok l) ↔ (
        (is_instance level (instance_of Kind.log_level) ≡ true)
        × (is_instance path str_type ≡ true)
        × (l ≡ file_logging level path))
unfolding file_logger
file_logger_iff level path l =
    let (to, from) =
      run_checks_iff (must (instance_of Kind.log_level) level ∷ must str_type path ∷ []) in
    (
      λ h.
          let (_, checked, made) = >>=-eq-ok (run_checks _) _ h in
          let (p, (q, _)) = to checked in (p, q, cc),
      λ (p, q, e). rw (from (p, (q, tt))) (cc e),
    )
