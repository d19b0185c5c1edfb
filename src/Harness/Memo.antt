-- ===== src/Harness/Memo.antt =====
-- A read that succeeded is not fetched again.
use continuo_python_runtime.Base.{
  String, ◌==◌, ◌≡◌, refl, sym, ap, subst, Option, none, some, List, Result, ok, err, eq_refl,
  eq_iff, Bool-cases, inl, inr,
}
use continuo_python_runtime.Engine.{Adapter}
use continuo_python_runtime.Steps.{call}
use continuo_python_runtime.Harness.{fetched, State}
use continuo_python_runtime.Harness.Context.{
  lookup, read_failed, memo_read, declared_read, read_name,
}

module _ {W T : Type 0} (adapter : Adapter W T) (reads : List (String × String)) where
  -- The memo holds the table.
  abbrev Known : String → T → List (String × T) → Type 0
  Known name t memo = lookup name memo ≡ some t

  failed-Known :
      (x : Result T × State W) (memo next : List (String × T)) (name : String) (t : T)
      → (read_failed adapter reads x memo name).0.0 ≡ ok t
      → (read_failed adapter reads x memo name).0.1 ≡ next
      → Known name t next
  unfolding lookup
  failed-Known (ok u, s) memo next name t e n = rw (← n, eq_refl name) (cc e)
  failed-Known (err x, s) memo next name t e n = cc

  memo-Known :
      (o : Option T) (sql name : String) (memo next : List (String × T)) (s : State W) (t : T)
      → lookup name memo ≡ o
      → (memo_read adapter reads o sql name memo s).0.0 ≡ ok t
      → (memo_read adapter reads o sql name memo s).0.1 ≡ next
      → Known name t next
  memo-Known (some u) sql name memo next s t h e n = cc
  memo-Known none sql name memo next s t h e n =
      failed-Known (call (fetched sql) (adapter.fetch sql) s) memo next name t e n

  declared-Known :
      (o : Option String) (name : String) (memo next : List (String × T)) (s : State W) (t : T)
      → (declared_read adapter reads o name memo s).0.0 ≡ ok t
      → (declared_read adapter reads o name memo s).0.1 ≡ next
      → Known name t next × ((sql : String) × (o ≡ some sql))
  declared-Known none name memo next s t e n = cc
  declared-Known (some sql) name memo next s t e n =
      (memo-Known (lookup name memo) sql name memo next s t refl e n, (sql, refl))

  -- What the memo holds it keeps when another read, of any name, has been made.
  kept_failed :
      (x : Result T × State W) (memo : List (String × T)) (read name : String) (t : T)
      → lookup read memo ≡ none
      → Known name t memo
      → Known name t (read_failed adapter reads x memo read).0.1
  unfolding lookup
  kept_failed (err e, s) memo read name t absent known = known
  kept_failed (ok u, s) memo read name t absent known = elim (Bool-cases (read == name)) [
    | inl same ↦
        let there : lookup read memo ≡ some t =
          subst (λ n. lookup n memo ≡ some t) (sym ((eq_iff read name).0 same)) known in
        cc
    | inr other ↦ rw other known
  ]

  kept_memo :
      (o : Option T) (sql read : String) (memo : List (String × T)) (s : State W) (name : String)
      (t : T)
      → lookup read memo ≡ o
      → Known name t memo
      → Known name t (memo_read adapter reads o sql read memo s).0.1
  kept_memo (some u) sql read memo s name t is known = known
  kept_memo none sql read memo s name t is known =
      kept_failed (call (fetched sql) (adapter.fetch sql) s) memo read name t is known

  kept_declared :
      (o : Option String) (read : String) (memo : List (String × T)) (s : State W) (name : String)
      (t : T)
      → Known name t memo
      → Known name t (declared_read adapter reads o read memo s).0.1
  kept_declared none read memo s name t known = known
  kept_declared (some sql) read memo s name t known =
      kept_memo (lookup read memo) sql read memo s name t refl known

  -- The memos that any reads, of any names in any worlds, make of this one.
  pub data Later : List (String × T) → List (String × T) → Type 0 where
    unread : (memo : List (String × T)) → Later memo memo
    read :
        (name : String) (memo last : List (String × T)) (s : State W)
        → Later (read_name adapter reads name memo s).0.1 last
        → Later memo last

  Later-Known :
      (name : String) (t : T) (memo last : List (String × T))
      → Later memo last
      → Known name t memo
      → Known name t last
  unfolding read_name
  Later-Known name t memo _ (unread _) known = known
  Later-Known name t memo last (read other _ _ s rest) known =
      Later-Known name t (read_name adapter reads other memo s).0.1 last rest
        (kept_declared (lookup other reads) other memo s name t known)

  -- Once a read has given a table, a later read of that name gives the same table, leaves the memo
  -- and calls nothing, after any reads of any names in between and whatever has become of the
  -- world.
  pub read_name-again :
      (name : String) (memo next last : List (String × T)) (s later : State W) (t : T)
      → (read_name adapter reads name memo s).0 ≡ (ok t, next)
      → Later next last
      → read_name adapter reads name last later ≡ ((ok t, last), later)
  unfolding read_name
  read_name-again name memo next last s later t e reads_between =
      let (known, (sql, is)) =
        declared-Known (lookup name reads) name memo next s t (ap (λ x. x.0) e) (ap (λ x. x.1) e) in
      let still : lookup name last ≡ some t = Later-Known name t next last reads_between known in
      rw is (rw still refl)
