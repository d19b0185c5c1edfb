-- ===== src/Duckdb/Session/Connecting/Passfiles.antt =====
-- What `open_passfile` of passfile.py leaves behind.
use continuo_python_runtime.Base.{
  String, ◌≡◌, refl, ap, subst, Bool, true, false, not, ◌&&◌, Option, none, some, ◌∷◌, is_some,
  if◌then◌else◌,
}
use continuo_python_runtime.Harness.Context.{lookup}
use continuo_python_runtime.Duckdb.Settings.{Env}
use continuo_python_runtime.Duckdb.Session.{
  conflict, engine, failed, Answer, returned, raised, continue, handled, ◌>>=◌, ◌>>◌, return, raise,
  on_failure,
}
use continuo_python_runtime.Duckdb.Session.Connecting.{
  System, passfile_text, close_passfile, new_passfile, stored, unless, open_passfile, can_store,
}
use continuo_python_runtime.Duckdb.Session.Connecting.Counted.{Resources, IsCounted, with_file}
use continuo_python_runtime.Duckdb.Session.Connecting.Counted as Counted

module _ {W C : Type 0} (system : System W C) (Holds : Resources C → W → Type 0) (Lost : W → Type 0)
    (counted : IsCounted W C system Holds Lost) where
  abbrev Held : Resources C → W → Type 0
  Held = Counted.Held system Holds Lost counted

  abbrev pub Written : Resources C → Answer (Option String) × W → Type 0
  Written before (returned passfile, w) = Held (before.0, with_file passfile before.1) w
  Written before (raised e, w) = Held before w

  abbrev Made : Resources C → Answer String × W → Type 0
  Made before (returned path, w) = Held (before.0, path ∷ before.1) w
  Made before (raised e, w) = Held before w

  make_temp-Made :
      (d : Resources C) (w : W) (x : Answer String × W)
      → system.make_temp w ≡ x
      → Held d w
      → Made d x
  make_temp-Made d w (returned path, v) is o =
      subst (λ x. Held (d.0, path ∷ d.1) x.1) is
        (Counted.advance system Holds Lost counted d (d.0, path ∷ d.1) w _ (counted.make_lost w)
          (counted.makes d w path (ap (λ x. x.0) is)) o)
  make_temp-Made d w (raised e, v) is o =
      subst (λ x. Held d x.1) is
        (Counted.advance system Holds Lost counted d d w _ (counted.make_lost w)
          (counted.make_fails d w e (ap (λ x. x.0) is)) o)

  -- What follows the new file: if writing it fails, it is closed.
  filled-Made :
      (d : Resources C) (path : String) (y : Answer (Unit {0}) × W)
      → Held (d.0, path ∷ d.1) y.1
      → Made d
          (continue (handled y (λ e. close_passfile system path >> raise e)) (λ u. return path))
  unfolding ◌>>=◌
  filled-Made d path (returned u, v) o = o
  filled-Made d path (raised e, v) o =
      after_close (close_passfile system path v)
        (Counted.close_passfile-Held system Holds Lost counted path d.0 d.1 v o)
    where
      after_close :
          (z : Answer (Unit {0}) × W)
          → Held d z.1
          → Made d (continue (continue z (λ u. raise {A = Unit {0}} e)) (λ u. return path))
      after_close (returned u, v) k = k
      after_close (raised x, v) k = k

  new_passfile-Made :
      (password : String) (d : Resources C) (w : W)
      → Held d w
      → Made d (new_passfile system password w)
  unfolding new_passfile ◌>>=◌ on_failure
  new_passfile-Made password d w o =
      made (system.make_temp w) (make_temp-Made d w (system.make_temp w) refl o)
    where
      made :
          (x : Answer String × W)
          → Made d x
          → Made d (
              continue x (λ path.
                on_failure
                  (system.write path (passfile_text password))
                  (λ e. close_passfile system path >> raise e)
                >> return path))
      made (returned path, v) k =
          filled-Made d path (system.write path (passfile_text password) v) (
            Counted.advance system Holds Lost counted (d.0, path ∷ d.1) (d.0, path ∷ d.1) v _
              (counted.write_lost v path (passfile_text password))
              (counted.writes (d.0, path ∷ d.1) v path (passfile_text password)) k)
      made (raised e, v) k = k

  caught-Written :
      (d : Resources C) (x : Answer String × W)
      → Made d x
      → Written d (
          handled (continue x (λ path. return (some path))) (unless system system.is_os_error none))
  caught-Written d (returned path, v) k = k
  caught-Written d (raised (conflict m), v) k = k
  caught-Written d (raised (engine e), v) k = k
  caught-Written d (raised (failed e), v) k = chosen (system.is_os_error e)
    where
      chosen : (b : Bool) → Written d ((if b then return none else raise (failed e)) v)
      chosen true = k
      chosen false = k

  stored-Written :
      (b : Bool) (password : String) (d : Resources C) (w : W)
      → Held d w
      → Written d (stored system b password w)
  unfolding ◌>>=◌ on_failure
  stored-Written false password d w o = o
  stored-Written true password d w o =
      caught-Written d (new_passfile system password w) (new_passfile-Made password d w o)

  pub open_passfile-Written :
      (env : Env) (password : String) (d : Resources C) (w : W)
      → Held d w
      → Written d (open_passfile system env password w)
  unfolding open_passfile
  open_passfile-Written env password d w o =
      stored-Written (can_store password && not (is_some (lookup "PGPASSWORD" env))) password d w o
