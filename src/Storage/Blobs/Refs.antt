-- ===== src/Storage/Blobs/Refs.antt =====
-- Keys and refs stand for one another.
use catchment.Prelude.{
  Option-cases, Text, ap, arith, inl, inr, nat_eq, pair_eq, refl, some, subst, sym, text_eq, ◌++◌,
  ◌↔◌, ◌∙◌, ◌≡◌,
}
use catchment.Prelude.Split.{after_prefix, after_prefix-append, append-after_prefix}
use catchment.Storage.Session.{Result-cases, ok}
use catchment.Storage.Blobs.{make_ref, parse_ref, path_eq, scheme, validate_key}

pub validate_key-ok : (key k : Text) → validate_key key ≡ ok k → k ≡ key
unfolding validate_key
validate_key-ok key k h = ground (arith, h)

pub make_ref-ok : (key k : Text) → validate_key key ≡ ok k → make_ref key ≡ ok (scheme ++ key)
unfolding make_ref
make_ref-ok key k e = rw e (ap (λ t. ok (scheme ++ t)) (validate_key-ok key k e))

parse_ref-rest :
    (ref key : Text) → after_prefix scheme ref ≡ some key → parse_ref ref ≡ validate_key key
unfolding parse_ref
parse_ref-rest ref key e = rw e refl

make_ref-inv :
    (key ref : Text) → make_ref key ≡ ok ref → (validate_key key ≡ ok key) × (scheme ++ key ≡ ref)
unfolding make_ref
make_ref-inv key ref h = elim (Result-cases (validate_key key)) [
  | inl (k, e) ↦ (e ∙ ap ok (validate_key-ok key k e), ground (arith, make_ref-ok key k e, h))
  | inr (x, e) ↦ ground (arith, e, h)
]

parse_ref-inv :
    (key ref : Text) → parse_ref ref ≡ ok key → (validate_key key ≡ ok key) × (scheme ++ key ≡ ref)
unfolding parse_ref
parse_ref-inv key ref h = elim (Option-cases (after_prefix scheme ref)) [
  | inl e ↦ ground (arith, e, h)
  | inr (rest, e) ↦
      let valid = sym (parse_ref-rest ref rest e) ∙ h in
      let same = validate_key-ok rest key valid in
      (
        subst (λ t. validate_key t ≡ ok key) (sym same) valid,
        subst (λ t. scheme ++ t ≡ ref) (sym same) (append-after_prefix scheme ref rest e),
      )
]

-- `make_ref` and `parse_ref` are inverse: a key makes a ref just when the ref parses to that key.
pub make_ref-parse_ref : (key ref : Text) → (make_ref key ≡ ok ref) ↔ (parse_ref ref ≡ ok key)
make_ref-parse_ref key ref = (
  λ h.
      let (valid, same) = make_ref-inv key ref h in
      subst (λ t. parse_ref t ≡ ok key) same
        (parse_ref-rest (scheme ++ key) key (after_prefix-append scheme key) ∙ valid),
  λ h. let (valid, same) = parse_ref-inv key ref h in make_ref-ok key key valid ∙ ap ok same,
)
