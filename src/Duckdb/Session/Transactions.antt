-- ===== src/Duckdb/Session/Transactions.antt =====
-- What a transaction of the DuckDB session leaves when it raises.
use continuo_python_runtime.Base.{String, ◌≡◌, refl, ap, subst, Bool, true, List, Result, ok, err}
use continuo_python_runtime.Base.Sorting.{Text}
use continuo_python_runtime.Duckdb.Session.Gateway.{table_exists_query}
use continuo_python_runtime.Duckdb.Session.{
  Failure, conflict, engine, failed, Answer, returned, raised, Action, Connection, continue,
  handled, ◌>>=◌, ◌>>◌, return, raise, lift, on_failure, finally, suppress, unless_engine, guarded,
  translated, run, run_with, rollback, transaction, begin, commit, rollback_text,
}

-- DuckDB's documented transactions: `committed` is what this connection has committed, and `Open d`
-- are the states inside a transaction that began when that was `d`; `Idle` are those outside of one.
-- `IsStatement` are the texts that are one statement, which does not itself end a transaction. A
-- ROLLBACK that raises finds no transaction, and a COMMIT that raises has ended it.
pub record IsTransactional (W T D : Type 0) (con : Connection W T) (IsStatement : Text → Type 0)
    (committed : W → D) (Open : D → W → Type 0) (Idle : W → Type 0) : Type 0 where
  pub begins :
      (w : W) → (con.execute begin w).0 ≡ returned tt → Open (committed w) (con.execute begin w).1
  pub begin_fails :
      (w : W) (e : Failure)
      → (con.execute begin w).0 ≡ raised e
      → (Idle w → Idle (con.execute begin w).1) × (committed (con.execute begin w).1 ≡ committed w)
  pub executes :
      (d : D) (w : W) (sql : Text) → IsStatement sql → Open d w → Open d (con.execute sql w).1
  pub queries :
      (d : D) (w : W) (parameters : List String)
      → Open d w
      → Open d (con.execute_with table_exists_query parameters w).1
  pub fetches : (d : D) (w : W) → Open d w → Open d (con.fetch_tables w).1
  pub registers :
      (d : D) (w : W) (view : String) (rows : T) → Open d w → Open d (con.register view rows w).1
  pub unregisters : (d : D) (w : W) (view : String) → Open d w → Open d (con.unregister view w).1
  pub rolls_back :
      (d : D) (w : W)
      → Open d w
      → Idle (con.execute rollback_text w).1 × (committed (con.execute rollback_text w).1 ≡ d)
  pub commits :
      (d : D) (w : W)
      → Open d w
      → (con.execute commit w).0 ≡ returned tt
      → Idle (con.execute commit w).1
  pub commit_fails :
      (d : D) (w : W) (e : Failure)
      → Open d w
      → (con.execute commit w).0 ≡ raised e
      → Idle (con.execute commit w).1 × (committed (con.execute commit w).1 ≡ d)

module _ {W D : Type 0} (Open : D → W → Type 0) where
  -- Code that leaves an open transaction open.
  abbrev pub Stays : {A : Type 0} → Action W A → Type 0
  Stays m = (d : D) (w : W) → Open d w → Open d (m w).1

  pub return-Stays : {A : Type 0} (a : A) → Stays (return a)
  return-Stays a d w o = o

  pub lift-Stays : {A : Type 0} (r : Result A) → Stays (lift r)
  lift-Stays (ok a) d w o = o
  lift-Stays (err e) d w o = o

  continue-Stays :
      {A B : Type 0} (f : A → Action W B)
      → ((a : A) → Stays (f a))
      → (d : D) (x : Answer A × W) → Open d x.1
      → Open d (continue x f).1
  continue-Stays f h d (returned a, w) o = h a d w o
  continue-Stays f h d (raised e, w) o = o

  pub bind-Stays :
      {A B : Type 0} (m : Action W A) (f : A → Action W B)
      → Stays m
      → ((a : A) → Stays (f a))
      → Stays (m >>= f)
  unfolding ◌>>=◌ on_failure
  bind-Stays m f g h d w o = continue-Stays f h d (m w) (g d w o)

  handled-Stays :
      {A : Type 0} (f : Failure → Action W A)
      → ((e : Failure) → Stays (f e))
      → (d : D) (x : Answer A × W) → Open d x.1
      → Open d (handled x f).1
  handled-Stays f h d (returned a, w) o = o
  handled-Stays f h d (raised e, w) o = h e d w o

  pub on_failure-Stays :
      {A : Type 0} (m : Action W A) (f : Failure → Action W A)
      → Stays m
      → ((e : Failure) → Stays (f e))
      → Stays (on_failure m f)
  unfolding ◌>>=◌ on_failure
  on_failure-Stays m f g h d w o = handled-Stays f h d (m w) (g d w o)

  unless_engine-Stays : (e : Failure) → Stays (unless_engine e)
  unless_engine-Stays (conflict t) d w o = o
  unless_engine-Stays (engine x) d w o = o
  unless_engine-Stays (failed x) d w o = o

  pub suppress-Stays : (m : Action W (Unit {0})) → Stays m → Stays (suppress m)
  suppress-Stays m g = on_failure-Stays m unless_engine g unless_engine-Stays

  pub finally-Stays :
      {A : Type 0} (m : Action W A) (last : Action W (Unit {0}))
      → Stays m
      → Stays last
      → Stays (finally m last)
  finally-Stays m last g h =
      bind-Stays _ _ (on_failure-Stays m _ g (λ e. bind-Stays last _ h (λ u d w o. o)))
        (λ a. bind-Stays last _ h (λ u d w o. o))

module _ {W T D : Type 0} (con : Connection W T) (secrets : List Text) (IsStatement : Text → Type 0)
    (committed : W → D) (Open : D → W → Type 0) (Idle : W → Type 0)
    (documented : IsTransactional W T D con IsStatement committed Open Idle) where
  pub guarded-Stays :
      {A : Type 0} (conflicts : Bool) (m : Action W A)
      → Stays Open m
      → Stays Open (guarded con secrets conflicts m)
  guarded-Stays conflicts m g = on_failure-Stays Open m _ g (λ e d w o. o)

  pub run-Stays : (sql : Text) → IsStatement sql → Stays Open (run con secrets sql)
  unfolding run
  run-Stays sql h = guarded-Stays true (con.execute sql) (λ d w o. documented.executes d w sql h o)

  pub run_with-Stays :
      (parameters : List String) → Stays Open (run_with con secrets table_exists_query parameters)
  unfolding run_with
  run_with-Stays parameters =
      guarded-Stays true (con.execute_with table_exists_query parameters)
        (λ d w o. documented.queries d w parameters o)

  -- No transaction is left, and if the step raised, what was committed is `d`.
  abbrev pub Ends : {A : Type 0} → D → Answer A × W → Type 0
  Ends d x = Idle x.1 × ((e : Failure) → x.0 ≡ raised e → committed x.1 ≡ d)

  -- A step that leaves no transaction where there was none and, where it raises, has committed nothing.
  abbrev pub IsAtomic : {A : Type 0} → Action W A → Type 0
  IsAtomic m = (w : W) → Idle w → Ends (committed w) (m w)

  rolled :
      {A B : Type 0} (g : A → Action W B) (d : D) (e : Failure) (x : Answer (Unit {0}) × W)
      → Idle x.1 × (committed x.1 ≡ d)
      → Ends d (continue (continue (suppress (λ w. x) x.1) (λ u. raise {A = A} e)) g)
  unfolding on_failure
  rolled g d e (returned u, w) (i, h) = (i, λ f k. h)
  rolled g d e (raised (conflict t), w) (i, h) = (i, λ f k. h)
  rolled g d e (raised (engine t), w) (i, h) = (i, λ f k. h)
  rolled g d e (raised (failed t), w) (i, h) = (i, λ f k. h)

  -- What follows the body.
  abbrev ended : {A : Type 0} → Answer A × W → Answer A × W
  ended y =
      continue (handled y (λ e. rollback con secrets >> raise e))
        (λ a. run con secrets commit >> return a)

  returned-ne-raised :
      {A : Type 0} (a : A) (d : D) (v : W) (e : Failure) → returned a ≡ raised e → committed v ≡ d
  returned-ne-raised a d v e h = cc

  -- The connection's answer to COMMIT or BEGIN, as `is` says, in the state that it left.
  left :
      (sql : Text) (w : W) (x : Answer (Unit {0}) × W)
      → con.execute sql w ≡ x
      → (con.execute sql w).1 ≡ x.1
  left sql w x is = ap (λ y. y.1) is

  committing :
      {A : Type 0} (a : A) (d : D) (w : W)
      → Open d w
      → (x : Answer (Unit {0}) × W) → (con.execute commit w ≡ x)
      → Ends d (continue (handled x (λ f. raise (translated con secrets true f))) (λ u. return a))
  committing a d w o (returned tt, v) is = (
    subst Idle (left commit w _ is) (documented.commits d w o (ap (λ x. x.0) is)),
    λ e k. returned-ne-raised a d v e k,
  )
  committing a d w o (raised f, v) is =
      let (idle, same) = documented.commit_fails d w f o (ap (λ x. x.0) is) in
      (
        subst Idle (left commit w _ is) idle,
        λ e k. subst (λ u. committed u ≡ d) (left commit w _ is) same,
      )

  ended-Ends : {A : Type 0} (d : D) (y : Answer A × W) → Open d y.1 → Ends d (ended y)
  unfolding run rollback ◌>>=◌ on_failure
  ended-Ends d (returned a, w) o = committing a d w o (con.execute commit w) refl
  ended-Ends d (raised f, w) o =
      rolled (λ a. run con secrets commit >> return a) d f (con.execute rollback_text w)
        (documented.rolls_back d w o)

  pub transaction-IsAtomic :
      {A : Type 0} (body : Action W A) → Stays Open body → IsAtomic (transaction con secrets body)
  unfolding transaction run ◌>>=◌ on_failure
  transaction-IsAtomic body stays w idle = began (con.execute begin w) refl
    where
      began :
          (x : Answer (Unit {0}) × W)
          → con.execute begin w ≡ x
          → Ends (committed w) (
              continue
                (handled x (λ f. raise (translated con secrets true f)))
                (λ u v. ended (body v)))
      began (returned tt, v) is =
          let o : Open (committed w) v =
            subst (Open (committed w)) (left begin w _ is)
              (documented.begins w (ap (λ x. x.0) is)) in
          ended-Ends (committed w) (body v) (stays (committed w) v o)
      began (raised f, v) is =
          let (kept, same) = documented.begin_fails w f (ap (λ x. x.0) is) in
          (
            subst Idle (left begin w _ is) (kept idle),
            λ e k. subst (λ u. committed u ≡ committed w) (left begin w _ is) same,
          )

  pub bind_lift-IsAtomic :
      {A B : Type 0} (r : Result A) (f : A → Action W B)
      → ((a : A) → r ≡ ok a → IsAtomic (f a))
      → IsAtomic (lift r >>= f)
  unfolding ◌>>=◌ on_failure
  bind_lift-IsAtomic (ok a) f h w i = h a refl w i
  bind_lift-IsAtomic (err x) f h w i = (i, λ e k. refl)

  pub return-IsAtomic : {A : Type 0} (a : A) → IsAtomic (return a)
  return-IsAtomic a w i = (i, λ e k. refl)
