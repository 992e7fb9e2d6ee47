-- ===== src/Storage/Session.antt =====
-- A database session (catchment/storage/db.py): an action gives its result, or raises, and gives
-- the rows as they then stand, so that what was written before a raise is still there for whoever
-- catches it.
use catchment.Prelude.{
  arith, ◌≡◌, ◌⊎◌, refl, inl, inr, ℕ, ◌+◌, Bool, true, false, Text, leb, length,
}
use catchment.Storage.Models.{Store}

-- The exceptions that the modelled code raises or lets through.
pub data Error : Type 0 where
  integrity_error data_error no_result_found repository_error unbounded_traversal not_approved :
      Error
  value_error payload_error parse_error overflow_error lookup_error : Error
  embedding_error llm_error missing_configuration : Error
  media_fetch_error media_not_available article_error other_error : Error
  invalid_blob_key blob_not_found forbidden bad_request service_unavailable : Error
  type_error feed_error os_error imap4_error imap_error conflict : Error

pub data Result {ℓ} (A : Type ℓ) : Type ℓ where
  ok : A → Result A
  raise : Error → Result A

abbrev pub Db {ℓ} : Type ℓ → Type ℓ
Db A = Store → Result A × Store

module _ {A : Type 0} where
  abbrev pub pure : A → Db A
  pure a s = (ok a, s)

  abbrev pub throw : Error → Db A
  throw e s = (raise e, s)

  abbrev pub lift : Result A → Db A
  lift r s = (r, s)

  -- A savepoint: `with session.begin_nested()`, and `session_scope` for the whole transaction.
  abbrev pub roll_back : Store → Result A × Store → Result A × Store
  roll_back s (ok a, t) = (ok a, t)
  roll_back s (raise e, t) = (raise e, s)

  abbrev pub nested : Db A → Db A
  nested m s = roll_back s (m s)

module _ {A B : Type 0} where
  abbrev pub continue : Result A × Store → (A → Db B) → Result B × Store
  continue (ok a, s) f = f a s
  continue (raise e, s) f = (raise e, s)

  infixl 5 ◌>>=◌ ◌>>◌
  abbrev pub ◌>>=◌ : Db A → (A → Db B) → Db B
  ◌>>=◌ m f s = continue (m s) f

  abbrev pub ◌>>◌ : Db A → Db B → Db B
  m >> n = m >>= λ _. n

abbrev pub gets {ℓ} : {A : Type ℓ} → (Store → A) → Db A
gets f s = (ok (f s), s)

-- A statement that cannot fail.
abbrev pub modify : (Store → Store) → Db (Unit {0})
modify f s = (ok tt, f s)

-- `uuid.uuid4()`, the default of a primary key.
abbrev pub uuid4 : Db ℕ
uuid4 s = (ok (s.uuids s.draws), record s { draws = s.draws + 1 })

-- A constraint that the database checks.
abbrev pub constraint : Bool → Db (Unit {0})
constraint true s = (ok tt, s)
constraint false s = (raise integrity_error, s)

-- A `String(n)` column, which refuses a longer text.
abbrev pub fits : Bool → Db (Unit {0})
fits true s = (ok tt, s)
fits false s = (raise data_error, s)

abbrev pub varchar : ℕ → Text → Db (Unit {0})
varchar n t = fits (leb (length t) n)

pub Result-cases :
    {A : Type 0} (r : Result A) → ((a : A) × (r ≡ ok a)) ⊎ ((e : Error) × (r ≡ raise e))
Result-cases (ok a) = inl (a, refl)
Result-cases (raise e) = inr (e, refl)

-- How an action ends: with a value, or with a raise, and in either case in some state.
pub Db-cases :
    {A : Type 0} (m : Db A) (s : Store)
    → ((a : A) × (t : Store) × (m s ≡ (ok a, t)))
      ⊎ ((e : Error) × (t : Store) × (m s ≡ (raise e, t)))
Db-cases m s = elim (Result-cases (m s).0) [
  | inl (a, e) ↦ inl (a, (m s).1, ground (arith, e))
  | inr (x, e) ↦ inr (x, (m s).1, ground (arith, e))
]

pub bind-pure_state :
    {A B : Type 0} (m : Db A) (f : A → B) (s : Store) → ((m >>= λ a. pure (f a)) s).1 ≡ (m s).1
bind-pure_state m f s = elim (Db-cases m s) [ inl (a, t, e) ↦ rw e | inr (x, t, e) ↦ rw e ]
