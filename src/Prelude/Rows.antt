-- ===== src/Prelude/Rows.antt =====
-- A table of rows by primary key, as an association list in the order of insertion, with the
-- statements that the repositories issue on such tables.
use mathlib.Core.Path.{◌≡◌, refl}
use mathlib.Core.Bool.{Bool}
use mathlib.Core.Option.{Option, none, some}
use mathlib.Core.List.{List, [], ◌∷◌}
use native.Mathlib.Omega.{arith}
use catchment.Prelude.Lists.{Has}
use mathlib.Core.Logic.{inl, inr}
use catchment.Prelude.Tests.{Bool-cases, Eq, ◌==◌, if◌then◌else◌}

abbrev pub Table {ℓ} : Type ℓ → Type ℓ → Type ℓ
Table K V = List (K × V)

module _ {ℓ} {V : Type ℓ} where
  -- The row that `upsert` leaves at its key, and the one that an update leaves.
  abbrev pub upserted : V → (V → V) → Option V → Option V
  upserted v f none = some v
  upserted v f (some w) = some (f w)

  abbrev pub map_some : (V → V) → Option V → Option V
  map_some f none = none
  map_some f (some v) = some (f v)

module _ {ℓ} {K V : Type ℓ} ⦃e : Eq K⦄ where
  -- `SELECT ... WHERE key = k`.
  unfoldable pub find : K → Table K V → Option V
  find k [] = none
  find k ((j, v) ∷ t) = if j == k then some v else find k t

  -- `INSERT ... ON CONFLICT (key) DO UPDATE`: `v` is the new row, `f` the update.
  unfoldable pub upsert : K → V → (V → V) → Table K V → Table K V
  upsert k v f [] = (k, v) ∷ []
  upsert k v f ((j, w) ∷ t) = if j == k then (j, f w) ∷ t else (j, w) ∷ upsert k v f t

  -- `UPDATE ... WHERE p key`.
  unfoldable pub update_where : (K → Bool) → (V → V) → Table K V → Table K V
  update_where p f [] = []
  update_where p f ((j, w) ∷ t) = (j, if p j then f w else w) ∷ update_where p f t

  -- `DELETE ... WHERE p key`.
  unfoldable pub delete_where : (K → Bool) → Table K V → Table K V
  delete_where p [] = []
  delete_where p ((j, w) ∷ t) = let rest = delete_where p t in if p j then rest else (j, w) ∷ rest

  pub find-upsert :
      (k j : K) (v : V) (f : V → V) (t : Table K V)
      → find j (upsert k v f t) ≡ (if k == j then upserted v f (find k t) else find j t)
  unfolding find upsert
  find-upsert k j v f [] = refl
  find-upsert k j v f ((i, w) ∷ t) =
      ground (arith, e.beq_iff k j, e.beq_iff i k, e.beq_iff i j, find-upsert k j v f t)

  pub find-delete :
      (p : K → Bool) (j : K) (t : Table K V)
      → find j (delete_where p t) ≡ (if p j then none else find j t)
  unfolding find delete_where
  find-delete p j [] = ground arith
  find-delete p j ((i, w) ∷ t) = ground (arith, e.beq_iff i j, find-delete p j t)

  pub find-update :
      (p : K → Bool) (f : V → V) (j : K) (t : Table K V)
      → find j (update_where p f t) ≡ (if p j then map_some f (find j t) else find j t)
  unfolding find update_where
  find-update p f j [] = ground arith
  find-update p f j ((i, w) ∷ t) = ground (arith, e.beq_iff i j, find-update p f j t)

  -- No key stands in two rows: what a primary key promises.
  abbrev pub IsKeyed : Table K V → Type ℓ
  IsKeyed [] = Unit
  IsKeyed ((k, v) ∷ t) = (find k t ≡ none) × IsKeyed t

  pub upsert-IsKeyed :
      (k : K) (v : V) (f : V → V) (t : Table K V) → IsKeyed t → IsKeyed (upsert k v f t)
  unfolding upsert find
  upsert-IsKeyed k v f [] h = (refl, tt)
  upsert-IsKeyed k v f ((i, w) ∷ t) h =
      ground
        (arith, e.beq_iff i k, e.beq_iff k i, find-upsert k i v f t, upsert-IsKeyed k v f t h.1)

  pub delete-IsKeyed : (p : K → Bool) (t : Table K V) → IsKeyed t → IsKeyed (delete_where p t)
  unfolding delete_where
  delete-IsKeyed p [] h = tt
  delete-IsKeyed p ((i, w) ∷ t) h = ground (arith, find-delete p i t, delete-IsKeyed p t h.1)

  pub update-IsKeyed :
      (p : K → Bool) (f : V → V) (t : Table K V) → IsKeyed t → IsKeyed (update_where p f t)
  unfolding update_where
  update-IsKeyed p f [] h = tt
  update-IsKeyed p f ((i, w) ∷ t) h = ground (arith, find-update p f i t, update-IsKeyed p f t h.1)

-- A row that stands in a keyed table is the one that its key finds.
pub find-Has :
    {K V : Type 0} ⦃e : Eq K⦄ (k : K) (v : V) (t : Table K V)
    → IsKeyed t
    → Has (k, v) t
    → find k t ≡ some v
unfolding find
find-Has ⦃e⦄ k v ((j, w) ∷ t) h (inl q) = ground (arith, e.beq_iff j k, q)
find-Has ⦃e⦄ k v ((j, w) ∷ t) h (inr m) = ground (arith, e.beq_iff j k, find-Has k v t h.1 m, h.0)
find-Has k v [] h m = absurd m

pub Has-found :
    {K V : Type 0} ⦃e : Eq K⦄ (k : K) (v : V) (t : Table K V) → find k t ≡ some v → Has (k, v) t
unfolding find
Has-found k v [] h = ground (arith, h)
Has-found ⦃e⦄ k v ((j, w) ∷ t) h = elim (Bool-cases (j == k)) [
  | inl same ↦ inl (ground (arith, e.beq_iff j k, same, h))
  | inr other ↦ inr (Has-found k v t (ground (arith, other, h)))
]
