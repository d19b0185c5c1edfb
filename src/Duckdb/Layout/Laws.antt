-- ===== src/Duckdb/Layout/Laws.antt =====
-- What a config that the DuckDB adapter accepts comes to.
use continuo_python_runtime.Base.{
  ℕ, ◌≤◌, String, ◌==◌, ◌≡◌, ◌≢◌, refl, sym, ap, ◌∙◌, subst, inl, inr, Bool, true, false, not, ◌&&◌,
  ◌||◌, Option, none, some, List, [], ◌∷◌, map, All, any, all, elem, distinct, fresh, fresh-cons,
  leb, leb→le, is_some, ok, >>=-eq-ok, require-eq-ok, ok-injective, some-injective, if◌then◌else◌,
  Bool-cases, both, eq_iff,
}
use continuo_python_runtime.Contract.Value.{
  Value, null, bool, int, float, str, ref, opaque, pos, negsuc, Heap, get_or, as_str,
}
use continuo_python_runtime.Duckdb.Domain.{ColumnTypes, identifier-str, is_temporal_type}
use continuo_python_runtime.Duckdb.Layout.{
  PartitionKey, SortKey, TableLayout, transforms, temporal_transforms, declared, declared_column,
  new_partition_key, declared_name, known_transform, some_buckets, no_buckets, fits_type,
  partition_key, partition_keys_from, partition_keys, same_key, sort_keys_from, sort_keys,
  where_given, of_mapping, from_config,
}

-- A bucket count of at least one for the bucket transform, and none for the others.
pub data FitsBuckets : String → Option ℕ → Type 0 where
  bucketed : {n : ℕ} → 1 ≤ n → FitsBuckets "bucket" (some n)
  unbucketed : {t : String} → t ≢ "bucket" → FitsBuckets t none

pub record IsPartition (types : ColumnTypes) (key : PartitionKey) : Type 0 where
  pub is_declared : is_some (declared key.column types) ≡ true
  pub is_transform : elem key.transform transforms ≡ true
  pub fits_buckets : FitsBuckets key.transform key.buckets
  pub fits_temporal :
      elem key.transform temporal_transforms ≡ true
      → (type : String) → declared key.column types ≡ some (some type)
      → is_temporal_type type ≡ true

abbrev pub IsSort : ColumnTypes → SortKey → Type 0
IsSort types key = is_some (declared key.column types) ≡ true

abbrev pub apart : PartitionKey → List PartitionKey → Bool
apart key = all (λ later. not (same_key later key))

abbrev pub all_apart : List PartitionKey → Bool
all_apart [] = true
all_apart (key ∷ keys) = apart key keys && all_apart keys

abbrev pub sort_columns : List SortKey → List String
sort_columns = map (λ key. key.column)

pub record IsLayout (types : ColumnTypes) (layout : TableLayout) : Type 0 where
  pub partitions : All (IsPartition types) layout.partition_keys
  pub partitions_apart : all_apart layout.partition_keys ≡ true
  pub sorts : All (IsSort types) layout.sort_keys
  pub sorts_distinct : distinct (sort_columns layout.sort_keys) ≡ true

declared_name-is_some :
    (types : ColumnTypes) (o : Option String) (column : String)
    → declared_name types o ≡ ok column
    → is_some (declared column types) ≡ true
declared_name-is_some types none column h = cc
declared_name-is_some types (some s) column h =
    let (_, _, h1) = >>=-eq-ok _ _ h in
    let (_, is, h2) = >>=-eq-ok _ _ h1 in
    subst (λ c. is_some (declared c types) ≡ true) (ok-injective h2) (require-eq-ok _ _ is)

known_transform-elem :
    (o : Option String) (t : String) → known_transform o ≡ ok t → elem t transforms ≡ true
known_transform-elem none t h = cc
known_transform-elem (some s) t h = elim (Bool-cases (elem s transforms)) [
  | inl is ↦ subst (λ x. elem x transforms ≡ true) (ok-injective (rw is at h)) is
  | inr not_is ↦ let impossible = rw not_is at h in cc
]

some_buckets-FitsBuckets :
    (value : Value) (b : Option ℕ) → some_buckets value ≡ ok b → FitsBuckets "bucket" b
some_buckets-FitsBuckets (int (pos n)) b h = elim (Bool-cases (leb 1 n)) [
  | inl positive ↦
      subst (FitsBuckets "bucket") (ok-injective (rw positive at h))
        (bucketed (leb→le 1 n positive))
  | inr small ↦ let impossible = rw small at h in cc
]
some_buckets-FitsBuckets (int (negsuc n)) b h = cc
some_buckets-FitsBuckets null b h = cc
some_buckets-FitsBuckets (bool x) b h = cc
some_buckets-FitsBuckets (float x) b h = cc
some_buckets-FitsBuckets (str x) b h = cc
some_buckets-FitsBuckets (ref x) b h = cc
some_buckets-FitsBuckets (opaque x) b h = cc

no_buckets-none : (value : Value) (b : Option ℕ) → no_buckets value ≡ ok b → b ≡ none
no_buckets-none null b h = sym (ok-injective h)
no_buckets-none (int x) b h = cc
no_buckets-none (bool x) b h = cc
no_buckets-none (float x) b h = cc
no_buckets-none (str x) b h = cc
no_buckets-none (ref x) b h = cc
no_buckets-none (opaque x) b h = cc

pub buckets-FitsBuckets :
    (t : String) (value : Value) (b : Option ℕ)
    → (if t == "bucket" then some_buckets value else no_buckets value) ≡ ok b
    → FitsBuckets t b
buckets-FitsBuckets t value b h = elim (Bool-cases (t == "bucket")) [
  | inl is ↦
      subst (λ x. FitsBuckets x b) (sym ((eq_iff t "bucket").0 is))
        (some_buckets-FitsBuckets value b (rw is at h))
  | inr other ↦
      subst (FitsBuckets t) (sym (no_buckets-none value b (rw other at h)))
        (unbucketed (λ same. let impossible = (eq_iff t "bucket").1 same in cc))
]

record IsNewKey (column : String) (key : PartitionKey) : Type 0 where
  same_column : key.column ≡ column
  is_transform : elem key.transform transforms ≡ true
  fits_buckets : FitsBuckets key.transform key.buckets

new_partition_key-IsNewKey :
    (column : String) (transform buckets : Value) (key : PartitionKey)
    → new_partition_key column transform buckets ≡ ok key
    → IsNewKey column key
unfolding new_partition_key
new_partition_key-IsNewKey column transform buckets key h =
    let (t, known, h1) = >>=-eq-ok _ _ h in
    let (b, counted, h2) = >>=-eq-ok _ _ h1 in
    subst (IsNewKey column) (ok-injective h2) (record {
      same_column = refl;
      is_transform = known_transform-elem (as_str transform) t known;
      fits_buckets = buckets-FitsBuckets t buckets b counted;
    })

fits_type-temporal :
    (o : Option (Option String)) (b : Bool)
    → (not b || fits_type o) ≡ true
    → b ≡ true
    → (type : String) → o ≡ some (some type)
    → is_temporal_type type ≡ true
fits_type-temporal (some (some t)) true h k type e =
    subst (λ x. is_temporal_type x ≡ true) (some-injective (some-injective e)) h
fits_type-temporal (some none) b h k type e = cc
fits_type-temporal none b h k type e = cc
fits_type-temporal (some (some t)) false h k type e = cc

distinct-cons :
    (x : String) (xs : List String)
    → elem x xs ≡ false
    → distinct xs ≡ true
    → distinct (x ∷ xs) ≡ true
distinct-cons x xs h k = rw h k

split_test :
    (a b : Bool) {r p q : Bool}
    → (not (a || b) && r) ≡ true
    → (r ≡ true → (p ≡ true) × (q ≡ true))
    → ((not a && p) ≡ true) × ((not b && q) ≡ true)
split_test true b h ih = cc
split_test false true h ih = cc
split_test false false h ih = ih h

-- None of the keys is one of those before.
abbrev unseen : List PartitionKey → List PartitionKey → Bool
unseen before = all (λ key. not (any (same_key key) before))

unseen-cons :
    (key : PartitionKey) (before keys : List PartitionKey)
    → unseen (key ∷ before) keys ≡ true
    → (apart key keys ≡ true) × (unseen before keys ≡ true)
unseen-cons key before [] h = (refl, refl)
unseen-cons key before (k ∷ keys) h =
    let ih = unseen-cons key before keys in
    split_test (same_key k key) (any (same_key k) before) h ih

module _ (h : Heap) (types : ColumnTypes) where
  partition_key-IsPartition :
      (value : Value) (key : PartitionKey)
      → partition_key h types value ≡ ok key
      → IsPartition types key
  unfolding partition_key declared_column
  partition_key-IsPartition value key e =
      let (entry, _, e1) = >>=-eq-ok _ _ e in
      let (column, is, e2) = >>=-eq-ok _ _ e1 in
      let (name, named, e3) = >>=-eq-ok _ _ e2 in
      let (new, made, e4) = >>=-eq-ok _ _ e3 in
      let (_, fits, e5) = >>=-eq-ok _ _ e4 in
      let from =
        new_partition_key-IsNewKey name (get_or "transform" (str "identity") entry)
          (get_or "buckets" null entry) new made in
      let same : column ≡ new.column = identifier-str column name named ∙ sym from.same_column in
      subst (IsPartition types) (ok-injective e5) (record {
        is_declared =
            subst (λ c. is_some (declared c types) ≡ true) same
              (declared_name-is_some types _ column is);
        is_transform = from.is_transform;
        fits_buckets = from.fits_buckets;
        fits_temporal = λ t type d.
            fits_type-temporal (declared column types) _ (require-eq-ok _ _ fits) t type
              (ap (λ c. declared c types) same ∙ d);
      })

  partition_keys_from-all :
      (before : List PartitionKey) (values : List Value) (keys : List PartitionKey)
      → partition_keys_from h types before values ≡ ok keys
      → All (IsPartition types) keys × (all_apart keys ≡ true) × (unseen before keys ≡ true)
  unfolding partition_keys_from
  partition_keys_from-all before [] keys e =
      subst (λ ks. All (IsPartition types) ks × (all_apart ks ≡ true) × (unseen before ks ≡ true))
        (ok-injective e) (tt, refl, refl)
  partition_keys_from-all before (value ∷ values) keys e =
      let (key, made, e1) = >>=-eq-ok _ _ e in
      let (_, new, e2) = >>=-eq-ok _ _ e1 in
      let (rest, others, e3) = >>=-eq-ok _ _ e2 in
      let (are, separate, unmet) = partition_keys_from-all (key ∷ before) values rest others in
      let (first, later) = unseen-cons key before rest unmet in
      subst (λ ks. All (IsPartition types) ks × (all_apart ks ≡ true) × (unseen before ks ≡ true))
        (ok-injective e3)
        (
          (partition_key-IsPartition value key made, are),
          both (apart key rest) (all_apart rest) first separate,
          both (not (any (same_key key) before)) (unseen before rest) (require-eq-ok _ _ new) later,
        )

  module _ (lower : String → String) where
    sort_keys_from-all :
        (seen : List String) (values : List Value) (keys : List SortKey)
        → sort_keys_from lower h types seen values ≡ ok keys
        → All (IsSort types) keys
          × (distinct (sort_columns keys) ≡ true)
          × (fresh seen (sort_columns keys) ≡ true)
    unfolding sort_keys_from declared_column
    sort_keys_from-all seen [] keys e =
        subst
          (λ ks.
            All (IsSort types) ks
            × (distinct (sort_columns ks) ≡ true)
            × (fresh seen (sort_columns ks) ≡ true))
          (ok-injective e) (tt, refl, refl)
    sort_keys_from-all seen (value ∷ values) keys e =
        let (entry, _, e1) = >>=-eq-ok _ _ e in
        let (column, is, e2) = >>=-eq-ok _ _ e1 in
        let (_, new, e3) = >>=-eq-ok _ _ e2 in
        let (direction, _, e4) = >>=-eq-ok _ _ e3 in
        let (nulls, _, e5) = >>=-eq-ok _ _ e4 in
        let (name, named, e6) = >>=-eq-ok _ _ e5 in
        let (rest, others, e7) = >>=-eq-ok _ _ e6 in
        let same = identifier-str column name named in
        let (are, differ, unmet) = sort_keys_from-all (column ∷ seen) values rest others in
        let (first, later) = fresh-cons column seen (sort_columns rest) unmet in
        subst
          (λ ks.
            All (IsSort types) ks
            × (distinct (sort_columns ks) ≡ true)
            × (fresh seen (sort_columns ks) ≡ true))
          (ok-injective e7)
          (
            (
              subst (λ c. is_some (declared c types) ≡ true) same
                  (declared_name-is_some types _ column is),
              are,
            ),
            subst (λ c. distinct (c ∷ sort_columns rest) ≡ true) same
                (distinct-cons column (sort_columns rest) first differ),
            subst (λ c. (not (elem c seen) && fresh seen (sort_columns rest)) ≡ true) same
                (both (not (elem column seen)) (fresh seen (sort_columns rest))
                  (require-eq-ok _ _ new) later),
          )

    partitions_all :
        (o : Option Value) (keys : List PartitionKey)
        → where_given (partition_keys h types) o ≡ ok keys
        → All (IsPartition types) keys × (all_apart keys ≡ true)
    unfolding partition_keys
    partitions_all none keys e =
        subst (λ ks. All (IsPartition types) ks × (all_apart ks ≡ true)) (ok-injective e) (tt, refl)
    partitions_all (some raw) keys e =
        let (values, _, e1) = >>=-eq-ok _ _ e in
        let (are, separate, _) = partition_keys_from-all [] values keys e1 in (are, separate)

    sorts_all :
        (o : Option Value) (keys : List SortKey)
        → where_given (sort_keys lower h types) o ≡ ok keys
        → All (IsSort types) keys × (distinct (sort_columns keys) ≡ true)
    unfolding sort_keys
    sorts_all none keys e =
        subst (λ ks. All (IsSort types) ks × (distinct (sort_columns ks) ≡ true)) (ok-injective e)
          (tt, refl)
    sorts_all (some raw) keys e =
        let (values, _, e1) = >>=-eq-ok _ _ e in
        let (are, differ, _) = sort_keys_from-all [] values keys e1 in (are, differ)

    of_mapping-IsLayout :
        (config : Value) (layout : TableLayout)
        → of_mapping lower h types config ≡ ok layout
        → IsLayout types layout
    of_mapping-IsLayout config layout e =
        let (entries, _, e1) = >>=-eq-ok _ _ e in
        let (partitions, ps, e2) = >>=-eq-ok _ _ e1 in
        let (sorts, ss, e3) = >>=-eq-ok _ _ e2 in
        let (a, b) = partitions_all _ partitions ps in
        let (c, d) = sorts_all _ sorts ss in
        subst (IsLayout types) (ok-injective e3)
          (record { partitions = a; partitions_apart = b; sorts = c; sorts_distinct = d })

    -- A layout that a config gives partitions by declared columns with allowed transforms, a
    -- bucket count of at least one for bucket and none for the others, a DATE or TIMESTAMP column
    -- for a time transform where the type is known, no key twice, and sorts by declared columns,
    -- none twice.
    pub from_config-IsLayout :
        (config : Value) (layout : TableLayout)
        → from_config lower h types config ≡ ok layout
        → IsLayout types layout
    unfolding from_config
    from_config-IsLayout null layout e =
        subst (IsLayout types) (ok-injective e)
          (record { partitions = tt; partitions_apart = refl; sorts = tt; sorts_distinct = refl })
    from_config-IsLayout (bool x) layout e = of_mapping-IsLayout (bool x) layout e
    from_config-IsLayout (int x) layout e = of_mapping-IsLayout (int x) layout e
    from_config-IsLayout (float x) layout e = of_mapping-IsLayout (float x) layout e
    from_config-IsLayout (str x) layout e = of_mapping-IsLayout (str x) layout e
    from_config-IsLayout (ref x) layout e = of_mapping-IsLayout (ref x) layout e
    from_config-IsLayout (opaque x) layout e = of_mapping-IsLayout (opaque x) layout e
