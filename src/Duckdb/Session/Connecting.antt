-- ===== src/Duckdb/Session/Connecting.antt =====
-- `connect` of adapters/duckdb/continuo_duckdb_adapter/infrastructure/session.py, and passfile.py. The
-- attempts number five; the logging and the removal of a passfile at exit are left out.
pub mod Counted
pub mod Passfiles
pub mod Laws
use continuo_python_runtime.Base.{
  ℕ, zero, suc, ◌-◌, ◌+◌, String, Bool, true, false, ◌&&◌, ◌||◌, not, Option, none, some, List, [],
  ◌∷◌, all, any, is_empty, is_some, length, eqb, if◌then◌else◌, Exception,
}
use continuo_python_runtime.Base.Sorting.{Text}
use continuo_python_runtime.Base.Text.{codes}
use continuo_python_runtime.Contract.Types.Grammar.{text_eq, strip, span, drop_prefix}
use continuo_python_runtime.Duckdb.Settings.{
  Env, DuckLakeSettings, uses_s3, filled, extensions, extensions_to_load,
}
use continuo_python_runtime.Harness.Context.{lookup}
use continuo_python_runtime.Duckdb.Ddl.{
  ◌<+>◌, replace_char, load_extension, install_extension, set_extension_directory,
  set_temp_directory, s3_secret_statement, attach_statement, use_catalog,
  disable_extension_autoinstall,
}
use continuo_python_runtime.Duckdb.Session.{
  Failure, conflict, engine, failed, EngineError, Answer, returned, raised, Action, ◌>>=◌, ◌>>◌,
  return, raise, finally, on_failure, translate,
}
use continuo_python_runtime.Duckdb.Session.Redaction.{occurs, secret_texts}
use continuo_python_runtime.Duckdb.Session.Gateway.{catalog_alias}

-- The connections that `duckdb.connect` opens, the files of the system, and the wait.
pub record System (W C : Type 0) : Type 0 where
  pub connect : Action W C
  pub execute : C → Text → Action W (Unit {0})
  pub close : C → Action W (Unit {0})
  -- `tempfile.mkstemp`, by the new file's path; writing a text to that file, with its descriptor
  -- opened and closed; and `os.unlink`.
  pub make_temp : Action W String
  pub write : String → Text → Action W (Unit {0})
  pub unlink : String → Action W (Unit {0})
  -- Whether an exception is a `FileNotFoundError`, or any `OSError`.
  pub is_not_found : Exception → Bool
  pub is_os_error : Exception → Bool
  -- The waits after a race, by its attempt, and after an unreachable catalog.
  pub backoff : ℕ → W → W
  pub pause : W → W
  pub lower : Text → Text
  pub from_message : String → Bool

-- `can_store`
unfoldable pub can_store : String → Bool
can_store password =
    not (is_empty (codes password)) && not (any (λ c. eqb c 10 || eqb c 13) (codes password))

-- The text of a passfile.
unfoldable pub passfile_text : String → Text
unfolding replace_char
passfile_text password =
    codes "*:*:*:*:"
    <+> replace_char b':' (codes "\\:") (replace_char b'\\' (codes "\\\\") (codes password))
    <+> codes "\n"

unfoldable pub is_first_attach_race : (Text → Text) → Text → Bool
unfolding occurs
is_first_attach_race lower message =
    occurs (codes "Failed to initialize DuckLake") message
    && (occurs (codes "duplicate") (lower message)
        || occurs (codes "already exists") (lower message))

abbrev line : Text → Text
line s = (span (λ c. not (eqb c 10)) s).0

abbrev reason_after : Option Text → Option Text → Option Text
reason_after (some s) other = some (line s)
reason_after none (some s) = some (line s)
reason_after none none = none

-- The reason that the pattern `_ADDRESS_FAILURE` captures at the start of a text.
unfoldable pub reason_at : Text → Option Text
unfolding drop_prefix span
reason_at s =
    reason_after (drop_prefix (codes "failed: ") s)
      (drop_prefix (codes "could not connect to server: ") s)

-- `findall`: the characters to skip are the rest of a match, which ends with its line.
unfoldable pub reasons_from : Bool → Text → List Text
unfolding reason_at
reasons_from matching [] = []
reasons_from matching (c ∷ s) =
    let rest = reasons_from (not (eqb c 10)) s in
    let others = reasons_from false s in
    if matching && not (eqb c 10)
    then rest
    else elim (reason_at (c ∷ s)) [ none ↦ others | some reason ↦ reason ∷ rest ]

abbrev pub unreachable_reasons : List Text
unreachable_reasons =
    codes "Connection refused" ∷ codes "No route to host" ∷ codes "Network is unreachable" ∷ []

unfoldable pub is_catalog_unreachable : Text → Bool
unfolding reasons_from strip text_eq occurs
is_catalog_unreachable message =
    let reasons = reasons_from false message in
    not (is_empty reasons)
    && all (λ reason. any (text_eq (strip reason)) unreachable_reasons) reasons
    && not (occurs (codes "FATAL:") message)
    && not (occurs (codes "timeout expired") message)

abbrev pub attach_attempts : ℕ
attach_attempts = 5

module _ {W C : Type 0} (system : System W C) where
  abbrev pub unless : (Exception → Bool) → {A : Type 0} → A → Failure → Action W A
  unless caught a (failed e) = if caught e then return a else raise (failed e)
  unless caught a (engine e) = raise (engine e)
  unless caught a (conflict m) = raise (conflict m)

  -- `Passfile.close`
  unfoldable pub close_passfile : String → Action W (Unit {0})
  close_passfile path = on_failure (system.unlink path) (unless system.is_not_found tt)

  -- `Passfile`
  unfoldable pub new_passfile : String → Action W String
  unfolding passfile_text close_passfile
  new_passfile password = system.make_temp >>= λ path.
      on_failure (system.write path (passfile_text password)) (λ e. close_passfile path >> raise e)
      >> return path

  abbrev pub stored : Bool → String → Action W (Option String)
  stored false password = return none
  stored true password =
      on_failure (new_passfile password >>= λ path. return (some path))
        (unless system.is_os_error none)

  -- `open_passfile`, by its path.
  unfoldable pub open_passfile : Env → String → Action W (Option String)
  unfolding can_store lookup new_passfile
  open_passfile env password =
      stored (can_store password && not (is_some (lookup "PGPASSWORD" env))) password

  abbrev pub unless_engine : Action W (Unit {0}) → Failure → Action W (Unit {0})
  unless_engine next (engine e) = next
  unless_engine next (conflict m) = raise (conflict m)
  unless_engine next (failed e) = raise (failed e)

  abbrev pub executed : C → Text → Action W (Unit {0})
  executed = system.execute

  -- `_load_extension`
  unfoldable pub load_or_install : C → String → Action W (Unit {0})
  load_or_install con name =
      on_failure (executed con (load_extension name)) (
        unless_engine (executed con (install_extension name) >> executed con (load_extension name)))

  unfoldable pub load_all : C → List String → Action W (Unit {0})
  unfolding load_or_install
  load_all con [] = return tt
  load_all con (name ∷ names) = load_or_install con name >> load_all con names

  abbrev pub where_filled : Option String → (String → Text) → C → Action W (Unit {0})
  where_filled none statement con = return tt
  where_filled (some s) statement con =
      if filled (some s) then executed con (statement s) else return tt

  abbrev pub prepared : DuckLakeSettings → Option String → C → Action W (Unit {0})
  prepared settings passfile con =
      where_filled settings.extension_directory set_extension_directory con
      >> where_filled settings.temp_directory set_temp_directory con
      >> load_all con (extensions_to_load settings)
      >> (if uses_s3 settings then executed con (s3_secret_statement settings) else return tt)
      >> executed con (attach_statement settings catalog_alias passfile)
      >> executed con (use_catalog catalog_alias)

  -- `_open`
  unfoldable pub open_connection : DuckLakeSettings → Option String → Action W C
  unfolding load_all extensions_to_load s3_secret_statement attach_statement
  open_connection settings passfile = system.connect >>= λ con.
      on_failure (prepared settings passfile con) (λ e. system.close con >> raise e) >> return con

  module _ (settings : DuckLakeSettings) (passfile : Option String) where
    abbrev pub leaving : EngineError → Answer C
    leaving e = raised (translate system.from_message (secret_texts settings) false e)

    -- What becomes of an attempt: it counts, or one of the two goes on.
    abbrev pub resolved : (W → Answer C × W) → (W → Answer C × W) → Answer C × W → Answer C × W
    resolved raced waited (returned con, w) = (returned con, w)
    resolved raced waited (raised (conflict m), w) = (raised (conflict m), w)
    resolved raced waited (raised (failed e), w) = (raised (failed e), w)
    resolved raced waited (raised (engine e), w) =
        if is_first_attach_race system.lower e.message
        then raced w
        else if is_catalog_unreachable e.message
        then waited w
        else (leaving e, w)

    abbrev pub last_resolved : Answer C × W → Answer C × W
    last_resolved (returned con, w) = (returned con, w)
    last_resolved (raised (conflict m), w) = (raised (conflict m), w)
    last_resolved (raised (failed e), w) = (raised (failed e), w)
    last_resolved (raised (engine e), w) = (leaving e, w)

    -- The attempts from the one numbered `attempt` on, `left` more being allowed after it.
    unfoldable pub attach_from : ℕ → ℕ → Action W C
    unfolding open_connection is_first_attach_race is_catalog_unreachable translate secret_texts
    attach_from zero attempt w = last_resolved (open_connection settings passfile w)
    attach_from (suc left) attempt w =
        resolved (λ v. attach_from left (suc attempt) (system.backoff attempt v))
          (λ v. attach_from left (suc attempt) (system.pause v))
          (open_connection settings passfile w)

  abbrev pub removed : Option String → Action W (Unit {0})
  removed none = return tt
  removed (some path) = close_passfile path

  -- `connect`: the connection, and the path of its passfile.
  unfoldable pub connect : Env → DuckLakeSettings → Action W (C × Option String)
  unfolding open_passfile attach_from close_passfile
  connect env settings = open_passfile env settings.catalog_password >>= λ passfile.
      on_failure (attach_from settings passfile (attach_attempts - 1) 1)
        (λ e. removed passfile >> raise e)
      >>= λ con. return (con, passfile)

  -- `close`
  unfoldable pub close_session : C × Option String → Action W (Unit {0})
  unfolding close_passfile
  close_session (con, passfile) = finally (system.close con) (removed passfile)

  abbrev loaded : C → List String → Action W (Unit {0})
  loaded con [] = return tt
  loaded con (name ∷ names) = executed con (load_extension name) >> loaded con names

  -- `check_offline` of extensions.py
  unfoldable pub check_offline : String → Action W (Unit {0})
  check_offline directory = system.connect >>= λ con.
      finally
        (executed con (set_extension_directory directory)
          >> executed con disable_extension_autoinstall
          >> loaded con extensions)
        (system.close con)
