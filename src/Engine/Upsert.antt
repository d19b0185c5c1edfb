-- ===== src/Engine/Upsert.antt =====
-- The template method `UpsertCapable.upsert`.
use continuo_python_runtime.Base.{
  String, ◌≡◌, refl, ◌⊎◌, inl, inr, List, Exception, Result, ok, err,
}
use continuo_python_runtime.Engine.{Arrow, Adapter, Target, ensure_unique_key, upsert}
use continuo_python_runtime.Engine.Keys.{IsGrouping, IsUniqueKey, ensure_unique_key-IsUniqueKey}

module _ {W T : Type 0} (arrow : Arrow T) (values : T → List String → List String)
    (grouping : IsGrouping T arrow values) (adapter : Adapter W T) where
  -- An upsert either has rows that its key identifies, and is the adapter's own write of them, or
  -- raises what the check of the key raises and leaves the warehouse as it was, given that
  -- pyarrow's grouping behaves as documented.
  pub upsert_lem :
      (target : Target) (rows : T) (key : List String) (w : W)
      → (IsUniqueKey T arrow values rows key
          × (upsert arrow adapter target rows key w ≡ adapter.upsert_rows target rows key w))
        ⊎ ((e : Exception) × (ensure_unique_key arrow rows key ≡ err e)
            × (upsert arrow adapter target rows key w ≡ (err e, w)))
  unfolding upsert
  upsert_lem target rows key w = by_check (ensure_unique_key arrow rows key) refl
    where
      by_check :
          (r : Result (Unit {0}))
          → ensure_unique_key arrow rows key ≡ r
          → (IsUniqueKey T arrow values rows key
              × (upsert arrow adapter target rows key w ≡ adapter.upsert_rows target rows key w))
            ⊎ ((e : Exception) × (ensure_unique_key arrow rows key ≡ err e)
                × (upsert arrow adapter target rows key w ≡ (err e, w)))
      by_check (ok tt) is =
          inl ((ensure_unique_key-IsUniqueKey arrow values grouping rows key).0 is, rw is refl)
      by_check (err e) is = inr (e, is, rw is refl)
