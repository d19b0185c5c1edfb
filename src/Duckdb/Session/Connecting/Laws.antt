-- ===== src/Duckdb/Session/Connecting/Laws.antt =====
-- What `connect` leaves open.
use continuo_python_runtime.Base.{
  ℕ, zero, suc, ◌-◌, String, refl, Bool, true, false, Option, none, some, List, [], ◌∷◌, inr,
  if◌then◌else◌,
}
use continuo_python_runtime.Base.Sorting.{Text}
use continuo_python_runtime.Duckdb.Settings.{Env, DuckLakeSettings, uses_s3, filled}
use continuo_python_runtime.Duckdb.Session.{
  Failure, conflict, engine, failed, Answer, returned, raised, Action, continue, handled, ◌>>=◌,
  ◌>>◌, return, raise, on_failure,
}
use continuo_python_runtime.Duckdb.Session.Transactions.{Stays, bind-Stays, on_failure-Stays}
use continuo_python_runtime.Duckdb.Session.Connecting.{
  System, open_passfile, attach_attempts, unless_engine, load_or_install, load_all, where_filled,
  prepared, open_connection, leaving, resolved, last_resolved, attach_from, removed, connect,
  is_first_attach_race, is_catalog_unreachable,
}
use continuo_python_runtime.Duckdb.Session.Connecting.Counted.{Resources, IsCounted, with_file}
use continuo_python_runtime.Duckdb.Session.Connecting.Counted as Counted
use continuo_python_runtime.Duckdb.Session.Connecting.Passfiles as Passfiles

module _ {W C : Type 0} (system : System W C) (Holds : Resources C → W → Type 0) (Lost : W → Type 0)
    (counted : IsCounted W C system Holds Lost) where
  abbrev Held : Resources C → W → Type 0
  Held = Counted.Held system Holds Lost counted

  abbrev Opened : Resources C → Answer C × W → Type 0
  Opened = Counted.Opened system Holds Lost counted

  -- After a failure nothing more is there, and after a success a connection with its passfile, unless
  -- a close or an unlink has raised.
  abbrev pub Released : Resources C → Answer (C × Option String) × W → Type 0
  Released before (returned (c, passfile), w) = Held (c ∷ before.0, with_file passfile before.1) w
  Released before (raised e, w) = Held before w

  unless_engine-Stays :
      (next : Action W (Unit {0}))
      → Stays Held next
      → (e : Failure) → Stays Held (unless_engine system next e)
  unless_engine-Stays next h (engine e) d w o = h d w o
  unless_engine-Stays next h (conflict m) d w o = o
  unless_engine-Stays next h (failed e) d w o = o

  load_all-Stays : (c : C) (names : List String) → Stays Held (load_all system c names)
  unfolding load_all load_or_install
  load_all-Stays c [] d w o = o
  load_all-Stays c (name ∷ names) d w o =
      bind-Stays Held _ _
        (on_failure-Stays Held _ _ (Counted.executed-Stays system Holds Lost counted c _) (
          unless_engine-Stays _ (
            bind-Stays Held _ _ (Counted.executed-Stays system Holds Lost counted c _)
              (λ u. Counted.executed-Stays system Holds Lost counted c _))))
        (λ u. load_all-Stays c names) d w o

  if-Stays :
      (b : Bool) (m : Action W (Unit {0})) → Stays Held m → Stays Held (if b then m else return tt)
  if-Stays true m h d w o = h d w o
  if-Stays false m h d w o = o

  where_filled-Stays :
      (s : Option String) (statement : String → Text) (c : C)
      → Stays Held (where_filled system s statement c)
  where_filled-Stays none statement c d w o = o
  where_filled-Stays (some s) statement c d w o =
      if-Stays (filled (some s)) (system.execute c (statement s))
        (Counted.executed-Stays system Holds Lost counted c _) d w o

  prepared-Stays :
      (settings : DuckLakeSettings) (passfile : Option String) (c : C)
      → Stays Held (prepared system settings passfile c)
  prepared-Stays settings passfile c =
      bind-Stays Held _ _
        (bind-Stays Held _ _
          (bind-Stays Held _ _
            (bind-Stays Held _ _
              (bind-Stays Held _ _ (where_filled-Stays settings.extension_directory _ c)
                (λ u. where_filled-Stays settings.temp_directory _ c))
              (λ u. load_all-Stays c _))
            (λ u.
              if-Stays (uses_s3 settings) _ (Counted.executed-Stays system Holds Lost counted c _)))
          (λ u. Counted.executed-Stays system Holds Lost counted c _))
        (λ u. Counted.executed-Stays system Holds Lost counted c _)

  closed_after :
      (c : C) (cs : List C) (fs : List String) (y : Answer (Unit {0}) × W)
      → Held (c ∷ cs, fs) y.1
      → Opened (cs, fs) (continue (handled y (λ e. system.close c >> raise e)) (λ u. return c))
  unfolding ◌>>=◌
  closed_after c cs fs (returned u, w) h = h
  closed_after c cs fs (raised e, w) h =
      after_close (system.close c w)
        (Counted.closed-Held system Holds Lost counted c cs fs w (system.close c w) refl h)
    where
      after_close :
          (z : Answer (Unit {0}) × W)
          → Held (cs, fs) z.1
          → Opened (cs, fs) (continue (continue z (λ u. raise {A = Unit {0}} e)) (λ u. return c))
      after_close (returned u, v) k = k
      after_close (raised x, v) k = k

  open_connection-Opened :
      (settings : DuckLakeSettings) (passfile : Option String) (d : Resources C) (w : W)
      → Held d w
      → Opened d (open_connection system settings passfile w)
  unfolding open_connection ◌>>=◌ on_failure
  open_connection-Opened settings passfile d w o =
      connected (system.connect w)
        (Counted.connected-Opened system Holds Lost counted d w (system.connect w) refl o)
    where
      connected :
          (x : Answer C × W)
          → Opened d x
          → Opened d (
              continue x (λ c.
                on_failure (prepared system settings passfile c) (λ e. system.close c >> raise e)
                >> return c))
      connected (returned c, v) k =
          closed_after c d.0 d.1 (prepared system settings passfile c v)
            (prepared-Stays settings passfile c (c ∷ d.0, d.1) v k)
      connected (raised e, v) k = k

  module _ (settings : DuckLakeSettings) (passfile : Option String) (d : Resources C) where
    abbrev attaching : ℕ → ℕ → Action W C
    attaching = attach_from system settings passfile

    resolved-Opened :
        (raced waited : W → Answer C × W)
        → ((v : W) → Held d v → Opened d (raced v))
        → ((v : W) → Held d v → Opened d (waited v))
        → (x : Answer C × W) → Opened d x
        → Opened d (resolved system settings passfile raced waited x)
    resolved-Opened raced waited f g (returned c, v) k = k
    resolved-Opened raced waited f g (raised (conflict m), v) k = k
    resolved-Opened raced waited f g (raised (failed e), v) k = k
    resolved-Opened raced waited f g (raised (engine e), v) k =
        chosen (is_first_attach_race system.lower e.message) (is_catalog_unreachable e.message)
      where
        chosen :
            (race unreachable : Bool)
            → Opened d (
                if race
                then raced v
                else if unreachable
                then waited v
                else (leaving system settings passfile e, v))
        chosen true unreachable = f v k
        chosen false true = g v k
        chosen false false = k

    last_resolved-Opened :
        (x : Answer C × W) → Opened d x → Opened d (last_resolved system settings passfile x)
    last_resolved-Opened (returned c, v) k = k
    last_resolved-Opened (raised (conflict m), v) k = k
    last_resolved-Opened (raised (failed e), v) k = k
    last_resolved-Opened (raised (engine e), v) k = k

    attach_from-Opened : (left attempt : ℕ) (w : W) → Held d w → Opened d (attaching left attempt w)
    unfolding attach_from
    attach_from-Opened zero attempt w h =
        last_resolved-Opened _ (open_connection-Opened settings passfile d w h)
    attach_from-Opened (suc left) attempt w h =
        resolved-Opened _ _
          (λ v k. attach_from-Opened left (suc attempt) (system.backoff attempt v) (
            Counted.advance system Holds Lost counted d d v _ (counted.backoff_lost attempt v)
              (counted.backs_off d attempt v) k))
          (λ v k. attach_from-Opened left (suc attempt) (system.pause v) (
            Counted.advance system Holds Lost counted d d v _ (counted.pause_lost v)
              (counted.pauses d v) k))
          (open_connection system settings passfile w)
          (open_connection-Opened settings passfile d w h)

  removed-Held :
      (passfile : Option String) (cs : List C) (fs : List String) (w : W)
      → Held (cs, with_file passfile fs) w
      → Held (cs, fs) (removed system passfile w).1
  removed-Held none cs fs w h = h
  removed-Held (some path) cs fs w h =
      Counted.close_passfile-Held system Holds Lost counted path cs fs w h

  -- What follows the passfile.
  abbrev following : Option String → Answer C × W → Answer (C × Option String) × W
  following passfile x =
      continue (handled x (λ e. removed system passfile >> raise e)) (λ c. return (c, passfile))

  removing :
      (passfile : Option String) (cs : List C) (fs : List String) (e : Failure)
      (z : Answer (Unit {0}) × W)
      → Held (cs, fs) z.1
      → Released (cs, fs) (continue (continue z (λ u. raise {A = C} e)) (λ c. return (c, passfile)))
  removing passfile cs fs e (returned u, v) k = k
  removing passfile cs fs e (raised x, v) k = k

  following-Released :
      (passfile : Option String) (cs : List C) (fs : List String) (x : Answer C × W)
      → Opened (cs, with_file passfile fs) x
      → Released (cs, fs) (following passfile x)
  unfolding ◌>>=◌
  following-Released passfile cs fs (returned c, v) k = k
  following-Released passfile cs fs (raised e, v) k =
      removing passfile cs fs e (removed system passfile v) (removed-Held passfile cs fs v k)

  passed :
      (settings : DuckLakeSettings) (before : Resources C) (x : Answer (Option String) × W)
      → Passfiles.Written system Holds Lost counted before x
      → Released before (
          continue x (λ passfile v.
            following passfile (attach_from system settings passfile (attach_attempts - 1) 1 v)))
  passed settings before (returned passfile, v) k =
      following-Released passfile before.0 before.1 _ (
        attach_from-Opened settings passfile (before.0, with_file passfile before.1)
          (attach_attempts - 1) 1 v k)
  passed settings before (raised e, v) k = k

  -- If connect raises, after however many of its five attempts, no connection and no file is there
  -- that was not there before, and if it returns, one connection and at most its passfile are,
  -- unless closing a connection or unlinking a file has raised, given that the calls of duckdb and
  -- of the file system open, make, close and unlink one thing where they return.
  pub connect-Released :
      (env : Env) (settings : DuckLakeSettings) (before : Resources C) (w : W)
      → Holds before w
      → Released before (connect system env settings w)
  unfolding connect ◌>>=◌ on_failure
  connect-Released env settings before w holds =
      passed settings before (open_passfile system env settings.catalog_password w) (
        Passfiles.open_passfile-Written system Holds Lost counted env settings.catalog_password
          before w (inr holds))
