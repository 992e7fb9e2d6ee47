-- ===== src/Prelude/Least.antt =====
-- The least value in a table of which something is known, and what noting one more does to it.
use Prim.Native.Nat.{ℕ, ◌≤◌}
use mathlib.Core.Path.{◌≡◌, refl, subst, sym, ap}
use mathlib.Core.Logic.{◌↔◌, ◌⊎◌, ◌≢◌, inl, inr}
use mathlib.Core.Option.{Option, none, some}
use native.Mathlib.Omega.{arith}
use native.Mathlib.Decide.{ℕ_discrete}
use catchment.Prelude.Rows.{Table, find, upsert, find-upsert}
use catchment.Prelude.Tests.{Bool-cases, ltb, if◌then◌else◌, nat_eq}

module _ {V : Type 0} (size : V → ℕ) where
  -- The option holds a least value with the property, and nothing where there is none.
  abbrev pub IsLeast : (V → Type 0) → Option V → Type 0
  IsLeast P none = (v : V) → P v → ⊥
  IsLeast P (some v) = P v × ((w : V) → P w → size v ≤ size w)

  abbrev pub lesser : V → V → V
  lesser v old = if ltb (size v) (size old) then v else old

  abbrev lowered : V → Option V → Option V
  lowered v none = some v
  lowered v (some old) = some (lesser v old)

  IsLeast-lowered :
      (P : V → Type 0) (v : V) (o : Option V)
      → IsLeast P o
      → IsLeast (λ w. P w ⊎ (w ≡ v)) (lowered v o)
  IsLeast-lowered P v none h = (inr refl, bound)
    where
      bound : (w : V) → P w ⊎ (w ≡ v) → size v ≤ size w
      bound w (inl p) = absurd (h w p)
      bound w (inr e) = subst (λ u. size v ≤ size u) (sym e) (omega arith)
  IsLeast-lowered P v (some old) (p, least) = elim (Bool-cases (ltb (size v) (size old))) [
    | inl less ↦ rw less (inr refl, with_new (ground (arith, less)))
    | inr more ↦ rw more (inl p, with_old (ground (arith, more)))
  ]
    where
      with_new : size v ≤ size old → (w : V) → P w ⊎ (w ≡ v) → size v ≤ size w
      with_new le w (inl q) = let far = least w q in omega arith
      with_new le w (inr e) = subst (λ u. size v ≤ size u) (sym e) (omega arith)

      with_old : size old ≤ size v → (w : V) → P w ⊎ (w ≡ v) → size old ≤ size w
      with_old le w (inl q) = least w q
      with_old le w (inr e) = subst (λ u. size old ≤ size u) (sym e) le

  pub IsLeast-iff :
      (P Q : V → Type 0) (o : Option V) → ((v : V) → P v ↔ Q v) → IsLeast P o → IsLeast Q o
  IsLeast-iff P Q none same h = λ v q. h v ((same v).1 q)
  IsLeast-iff P Q (some v) same (p, least) = ((same v).0 p, λ w q. least w ((same w).1 q))

  -- Noting a value at a key adds it to what is known of that key, and to nothing else.
  pub note-IsLeast :
      (P : V → Type 0) (k : ℕ) (v : V) (t : ℕ) (f : V → V) (table : Table ℕ V)
      → ((old : V) → f old ≡ lesser v old)
      → IsLeast P (find t table)
      → IsLeast (λ w. P w ⊎ ((k ≡ t) × (w ≡ v))) (find t (upsert k v f table))
  note-IsLeast P k v t f table is_lesser h = elim (ℕ_discrete k t) [
    | yes same ↦
        subst (IsLeast (λ w. P w ⊎ ((k ≡ t) × (w ≡ v)))) (sym (at_key same (find t table) refl)) (
          IsLeast-iff (λ w. P w ⊎ (w ≡ v)) _ (lowered v (find t table))
            (λ w. (with_key same w, without_key w)) (IsLeast-lowered P v (find t table) h))
    | no other ↦
        subst (IsLeast (λ w. P w ⊎ ((k ≡ t) × (w ≡ v)))) (sym (elsewhere other))
          (IsLeast-iff P _ (find t table) (λ w. (inl, of_other other w)) h)
  ]
    where
      at_key : k ≡ t → (o : Option V) → find t table ≡ o → find t (upsert k v f table) ≡ lowered v o
      at_key same none q =
          ground
            (arith, find-upsert k t v f table, nat_eq.beq_iff k t, q, ap (λ j. find j table) same)
      at_key same (some old) q = ground (
        arith,
        find-upsert k t v f table,
        nat_eq.beq_iff k t,
        q,
        is_lesser old,
        ap (λ j. find j table) same,
      )

      elsewhere : k ≢ t → find t (upsert k v f table) ≡ find t table
      elsewhere other = ground (arith, find-upsert k t v f table, nat_eq.beq_iff k t)

      with_key : k ≡ t → (w : V) → P w ⊎ (w ≡ v) → P w ⊎ ((k ≡ t) × (w ≡ v))
      with_key same w (inl p) = inl p
      with_key same w (inr q) = inr (same, q)

      without_key : (w : V) → P w ⊎ ((k ≡ t) × (w ≡ v)) → P w ⊎ (w ≡ v)
      without_key w (inl p) = inl p
      without_key w (inr q) = inr q.1

      of_other : k ≢ t → (w : V) → P w ⊎ ((k ≡ t) × (w ≡ v)) → P w
      of_other other w (inl p) = p
      of_other other w (inr q) = absurd (other q.0)
