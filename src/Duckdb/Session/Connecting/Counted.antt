-- ===== src/Duckdb/Session/Connecting/Counted.antt =====
-- The connections and files that the calls of `connect` open, make, close and unlink.
use continuo_python_runtime.Base.{
  ℕ, String, ◌≡◌, refl, ap, subst, Bool, true, false, Option, none, some, List, ◌∷◌, inl, inr,
  if◌then◌else◌, ◌⊎◌, Exception,
}
use continuo_python_runtime.Base.Sorting.{Text}
use continuo_python_runtime.Duckdb.Session.{
  Failure, conflict, engine, failed, Answer, returned, raised, Action, handled, return, raise,
  on_failure,
}
use continuo_python_runtime.Duckdb.Session.Transactions.{Stays}
use continuo_python_runtime.Duckdb.Session.Connecting.{System, close_passfile, unless}

-- The connections and the passfiles that are there, the newest first.
abbrev pub Resources : Type 0 → Type 0
Resources C = List C × List String

-- `Holds d` are the states in which these are there, and `Lost` those in which a connection's close
-- or an unlink has raised, so that what is there is not known. A call that opens a connection or makes
-- a file has one more of these when it returns, and one that closes or unlinks the newest has it no
-- more when it returns; the others change neither.
pub record IsCounted (W C : Type 0) (system : System W C) (Holds : Resources C → W → Type 0)
    (Lost : W → Type 0) : Type 0 where
  pub connects :
      (d : Resources C) (w : W) (c : C)
      → (system.connect w).0 ≡ returned c
      → Holds d w
      → Holds (c ∷ d.0, d.1) (system.connect w).1
  pub connect_fails :
      (d : Resources C) (w : W) (e : Failure)
      → (system.connect w).0 ≡ raised e
      → Holds d w
      → Holds d (system.connect w).1
  pub executes :
      (d : Resources C) (w : W) (c : C) (sql : Text)
      → Holds d w
      → Holds d (system.execute c sql w).1
  pub closes :
      (w : W) (c : C) (cs : List C) (fs : List String)
      → (system.close c w).0 ≡ returned tt
      → Holds (c ∷ cs, fs) w
      → Holds (cs, fs) (system.close c w).1
  pub close_fails :
      (w : W) (c : C) (e : Failure) → (system.close c w).0 ≡ raised e → Lost (system.close c w).1
  pub makes :
      (d : Resources C) (w : W) (path : String)
      → (system.make_temp w).0 ≡ returned path
      → Holds d w
      → Holds (d.0, path ∷ d.1) (system.make_temp w).1
  pub make_fails :
      (d : Resources C) (w : W) (e : Failure)
      → (system.make_temp w).0 ≡ raised e
      → Holds d w
      → Holds d (system.make_temp w).1
  pub writes :
      (d : Resources C) (w : W) (path : String) (text : Text)
      → Holds d w
      → Holds d (system.write path text w).1
  pub unlinks :
      (w : W) (path : String) (cs : List C) (fs : List String)
      → (system.unlink path w).0 ≡ returned tt
      → Holds (cs, path ∷ fs) w
      → Holds (cs, fs) (system.unlink path w).1
  pub unlink_fails :
      (w : W) (path : String) (e : Failure)
      → (system.unlink path w).0 ≡ raised e
      → Lost (system.unlink path w).1
  pub backs_off : (d : Resources C) (n : ℕ) (w : W) → Holds d w → Holds d (system.backoff n w)
  pub pauses : (d : Resources C) (w : W) → Holds d w → Holds d (system.pause w)
  pub connect_lost : (w : W) → Lost w → Lost (system.connect w).1
  pub execute_lost : (w : W) (c : C) (sql : Text) → Lost w → Lost (system.execute c sql w).1
  pub close_lost : (w : W) (c : C) → Lost w → Lost (system.close c w).1
  pub make_lost : (w : W) → Lost w → Lost (system.make_temp w).1
  pub write_lost :
      (w : W) (path : String) (text : Text) → Lost w → Lost (system.write path text w).1
  pub unlink_lost : (w : W) (path : String) → Lost w → Lost (system.unlink path w).1
  pub backoff_lost : (n : ℕ) (w : W) → Lost w → Lost (system.backoff n w)
  pub pause_lost : (w : W) → Lost w → Lost (system.pause w)

abbrev pub with_file : Option String → List String → List String
with_file none fs = fs
with_file (some path) fs = path ∷ fs

module _ {W C : Type 0} (system : System W C) (Holds : Resources C → W → Type 0) (Lost : W → Type 0)
    (counted : IsCounted W C system Holds Lost) where
  abbrev pub Held : Resources C → W → Type 0
  Held d w = Lost w ⊎ Holds d w

  abbrev pub Opened : Resources C → Answer C × W → Type 0
  Opened before (returned c, w) = Held (c ∷ before.0, before.1) w
  Opened before (raised e, w) = Held before w

  pub advance :
      (d e : Resources C) (w v : W)
      → (Lost w → Lost v)
      → (Holds d w → Holds e v)
      → Held d w
      → Held e v
  advance d e w v f g (inl lost) = inl (f lost)
  advance d e w v f g (inr holds) = inr (g holds)

  pub executed-Stays : (c : C) (sql : Text) → Stays Held (system.execute c sql)
  executed-Stays c sql d w o =
      advance d d w _ (counted.execute_lost w c sql) (counted.executes d w c sql) o

  pub connected-Opened :
      (d : Resources C) (w : W) (x : Answer C × W) → system.connect w ≡ x → Held d w → Opened d x
  connected-Opened d w (returned c, v) is o =
      subst (λ x. Held (c ∷ d.0, d.1) x.1) is
        (advance d (c ∷ d.0, d.1) w _ (counted.connect_lost w)
          (counted.connects d w c (ap (λ x. x.0) is)) o)
  connected-Opened d w (raised e, v) is o =
      subst (λ x. Held d x.1) is
        (advance d d w _ (counted.connect_lost w) (counted.connect_fails d w e (ap (λ x. x.0) is))
          o)

  pub closed-Held :
      (c : C) (cs : List C) (fs : List String) (w : W) (x : Answer (Unit {0}) × W)
      → system.close c w ≡ x
      → Held (c ∷ cs, fs) w
      → Held (cs, fs) x.1
  closed-Held c cs fs w (returned tt, v) is o =
      subst (λ x. Held (cs, fs) x.1) is
        (advance (c ∷ cs, fs) (cs, fs) w _ (counted.close_lost w c)
          (counted.closes w c cs fs (ap (λ x. x.0) is)) o)
  closed-Held c cs fs w (raised e, v) is o =
      subst (λ x. Held (cs, fs) x.1) is (inl (counted.close_fails w c e (ap (λ x. x.0) is)))

  unlinked-Held :
      (path : String) (cs : List C) (fs : List String) (w : W) (x : Answer (Unit {0}) × W)
      → system.unlink path w ≡ x
      → Held (cs, path ∷ fs) w
      → Held (cs, fs) x.1
  unlinked-Held path cs fs w (returned tt, v) is o =
      subst (λ x. Held (cs, fs) x.1) is
        (advance (cs, path ∷ fs) (cs, fs) w _ (counted.unlink_lost w path)
          (counted.unlinks w path cs fs (ap (λ x. x.0) is)) o)
  unlinked-Held path cs fs w (raised e, v) is o =
      subst (λ x. Held (cs, fs) x.1) is (inl (counted.unlink_fails w path e (ap (λ x. x.0) is)))

  unless-Stays :
      {A : Type 0} (caught : Exception → Bool) (a : A) (e : Failure)
      → Stays Held (unless system caught a e)
  unless-Stays caught a (conflict m) d w o = o
  unless-Stays caught a (engine e) d w o = o
  unless-Stays caught a (failed e) d w o = chosen (caught e)
    where
      chosen : (b : Bool) → Held d ((if b then return a else raise (failed e)) w).1
      chosen true = o
      chosen false = o

  handled-Held :
      {A : Type 0} (d : Resources C) (x : Answer A × W) (f : Failure → Action W A)
      → ((e : Failure) → Stays Held (f e))
      → Held d x.1
      → Held d (handled x f).1
  handled-Held d (returned a, v) f h o = o
  handled-Held d (raised e, v) f h o = h e d v o

  pub close_passfile-Held :
      (path : String) (cs : List C) (fs : List String) (w : W)
      → Held (cs, path ∷ fs) w
      → Held (cs, fs) (close_passfile system path w).1
  unfolding close_passfile on_failure
  close_passfile-Held path cs fs w o =
      handled-Held (cs, fs) (system.unlink path w) _ (unless-Stays system.is_not_found tt)
        (unlinked-Held path cs fs w (system.unlink path w) refl o)
