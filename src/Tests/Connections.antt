-- ===== src/Tests/Connections.antt =====
-- A session that cannot attach its catalog.
use continuo_python_runtime.Base.{
  ℕ, String, ◌≡◌, refl, ap, ◌∙◌, Bool, true, false, List, [], ◌∷◌, other_error,
}
use continuo_python_runtime.Duckdb.Session.{Failure, engine, failed, Answer, returned, raised}
use continuo_python_runtime.Duckdb.Session.Connecting.{System, connect}
use continuo_python_runtime.Duckdb.Session.Connecting.Counted.{Resources, IsCounted}
use continuo_python_runtime.Duckdb.Session.Connecting.Laws.{Released, connect-Released}
use continuo_python_runtime.Tests.Lakes.{settings, refused}

-- A system that opens connections by their number and refuses each statement, so that no attempt
-- succeeds; an unlink of a locked file raises. The state has what is there, and whether a close or an
-- unlink has raised.
abbrev Machine : Type 0
Machine = Resources ℕ × Bool

abbrev rest {ℓ} : {A : Type ℓ} → List A → List A
rest [] = []
rest (x ∷ xs) = xs

abbrev unlinked : Bool → Machine → Answer (Unit {0}) × Machine
unlinked true (d, lost) = (raised (failed (other_error "PermissionError")), (d, true))
unlinked false ((cs, fs), lost) = (returned tt, ((cs, rest fs), lost))

abbrev system : Bool → System Machine ℕ
system locked = record {
  connect = λ w. (returned 0, ((0 ∷ w.0.0, w.0.1), w.1));
  execute = λ con sql w. (raised (engine refused), w);
  close = λ con w. (returned tt, ((rest w.0.0, w.0.1), w.1));
  make_temp = λ w. (returned "/tmp/p", ((w.0.0, "/tmp/p" ∷ w.0.1), w.1));
  write = λ path text w. (returned tt, w);
  unlink = λ path w. unlinked locked w;
  is_not_found = λ e. false;
  is_os_error = λ e. false;
  backoff = λ n w. w;
  pause = λ w. w;
  lower = λ s. s;
  from_message = λ class. true;
}

abbrev Holds : Resources ℕ → Machine → Type 0
Holds d w = w.0 ≡ d

abbrev Lost : Machine → Type 0
Lost w = w.1 ≡ true

returned-injective : {A : Type 0} {a b : A} → returned a ≡ returned b → a ≡ b
returned-injective h = cc

unlinked_rest :
    (locked : Bool) (w : Machine) (path : String) (cs : List ℕ) (fs : List String)
    → (unlinked locked w).0 ≡ returned tt
    → Holds (cs, path ∷ fs) w
    → Holds (cs, fs) (unlinked locked w).1
unlinked_rest true w path cs fs r h = cc
unlinked_rest false w path cs fs r h = ap (λ d. (d.0, rest d.1)) h

unlink_loses :
    (locked : Bool) (w : Machine) (e : Failure)
    → (unlinked locked w).0 ≡ raised e
    → Lost (unlinked locked w).1
unlink_loses true w e h = refl
unlink_loses false w e h = cc

unlink_stays_lost : (locked : Bool) (w : Machine) → Lost w → Lost (unlinked locked w).1
unlink_stays_lost true w h = refl
unlink_stays_lost false w h = h

counted : (locked : Bool) → IsCounted Machine ℕ (system locked) Holds Lost
counted locked = record {
  connects =
      λ d w c r h. ap (λ x. (x ∷ w.0.0, w.0.1)) (returned-injective r) ∙ ap (λ d. (c ∷ d.0, d.1)) h;
  connect_fails = λ d w e r h. cc;
  executes = λ d w c sql h. h;
  closes = λ w c cs fs r h. ap (λ d. (rest d.0, d.1)) h;
  close_fails = λ w c e r. cc;
  makes = λ d w path r h.
      ap (λ p. (w.0.0, p ∷ w.0.1)) (returned-injective r) ∙ ap (λ d. (d.0, path ∷ d.1)) h;
  make_fails = λ d w e r h. cc;
  writes = λ d w path text h. h;
  unlinks = λ w path cs fs r h. unlinked_rest locked w path cs fs r h;
  unlink_fails = λ w path e r. unlink_loses locked w e r;
  backs_off = λ d n w h. h;
  pauses = λ d w h. h;
  connect_lost = λ w h. h;
  execute_lost = λ w c sql h. h;
  close_lost = λ w c h. h;
  make_lost = λ w h. h;
  write_lost = λ w path text h. h;
  unlink_lost = λ w path h. unlink_stays_lost locked w h;
  backoff_lost = λ n w h. h;
  pause_lost = λ w h. h;
}

connect-Released_example :
    Released
      (system false)
      Holds
      Lost
      (counted false)
      ([], [])
      (connect (system false) [] settings (([], []), false))
connect-Released_example =
    connect-Released (system false) Holds Lost (counted false) [] settings ([], [])
      (([], []), false) refl
