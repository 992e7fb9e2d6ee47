-- ===== src/Classification/Slug.antt =====
-- catchment/classification/slug.py.
pub mod Shape
pub mod Spaces
pub mod Fixed
use Prim.Native.Nat.{ℕ}
use catchment.Prelude.{
  Bool, Text, [], false, if◌then◌else◌, leb, ltb, nat_beq, nat_eq, pair_eq, take, text_eq, true, ℕ,
  ◌&&◌, ◌+◌, ◌||◌, ◌∷◌,
}
use catchment.Prelude.Strip.{drop_back, drop_front, is_empty}
use catchment.Storage.Session.{Result, ok, raise, value_error}

abbrev pub max_slug_length : ℕ
max_slug_length = 128

-- `[a-z0-9]`.
abbrev pub is_alnum : ℕ → Bool
is_alnum c = leb 97 c && leb c 122 || leb 48 c && leb c 57

abbrev pub is_dash : ℕ → Bool
is_dash c = nat_beq c 45

-- `.lower()` of an ASCII character.
abbrev pub lower : ℕ → ℕ
lower c = if leb 65 c && leb c 90 then c + 32 else c

-- `.encode("ascii", "ignore").decode("ascii").lower()`.
unfoldable pub ascii_lower : Text → Text
ascii_lower [] = []
ascii_lower (c ∷ cs) = if ltb c 128 then lower c ∷ ascii_lower cs else ascii_lower cs

-- `_NON_ALNUM.sub("-", text)`: a run of other characters becomes one dash. The flag says that the
-- run before has its dash already.
unfoldable pub dash_runs : Bool → Text → Text
dash_runs in_run [] = []
dash_runs in_run (c ∷ cs) = elim (is_alnum c) [
  | true ↦ c ∷ dash_runs false cs
  | false ↦ elim in_run [ true ↦ dash_runs true cs | false ↦ 45 ∷ dash_runs true cs ]
]

-- The last lines: `slug[:MAX_SLUG_LENGTH].rstrip("-")`, or `ValueError` for an empty slug.
unfoldable pub bounded_slug : Text → Result Text
unfolding drop_back
bounded_slug slug =
    if is_empty slug then raise value_error else ok (drop_back is_dash (take max_slug_length slug))

-- `normalize` is `unicodedata.normalize("NFKD", ·)`.
unfoldable pub slugify : (Text → Text) → Text → Result Text
unfolding bounded_slug ascii_lower dash_runs drop_front drop_back
slugify normalize label =
    bounded_slug
      (drop_back is_dash (drop_front is_dash (dash_runs false (ascii_lower (normalize label)))))
