-- ===== src/Storage/Tags/Paths.antt =====
-- Paths in the tag graph, and the two ways in which the recursive queries follow its edges.
use catchment.Prelude.{
  Has, List, [], arith, find, is_some, nat_eq, pair_eq, refl, subst, suc, sym, text_eq, true, zero,
  ℕ, ◌+◌, ◌↔◌, ◌∷◌, ◌≡◌,
}
use catchment.Storage.Models.{Edges}
use catchment.Storage.Tags.{children, parents}

-- There is an edge from the parent to the child.
abbrev pub Edge : Edges → ℕ → ℕ → Type 0
Edge g p c = is_some (find (p, c) g) ≡ true

-- A path of that many edges from the first tag down to the second.
abbrev pub Down : Edges → ℕ → ℕ → ℕ → Type 0
Down g zero a c = a ≡ c
Down g (suc n) a c = (b : ℕ) × Down g n a b × Edge g b c

-- The same, as a query follows it: `near` gives the tags one edge away.
abbrev pub Walk : (ℕ → List ℕ) → ℕ → ℕ → ℕ → Type 0
Walk near zero a c = a ≡ c
Walk near (suc n) a c = (b : ℕ) × Walk near n a b × Has c (near b)

children-Edge : (p c : ℕ) (g : Edges) → Has c (children p g) → Edge g p c
unfolding children find
children-Edge p c [] h = absurd h
children-Edge p c (((q, d), r) ∷ g) h = ground (arith, children-Edge p c g)

Edge-child : (p c : ℕ) (g : Edges) → Edge g p c → Has c (children p g)
unfolding children find
Edge-child p c [] h = cc
Edge-child p c (((q, d), r) ∷ g) h = ground (arith, Edge-child p c g)

parents-Edge : (p c : ℕ) (g : Edges) → Has p (parents c g) → Edge g p c
unfolding parents find
parents-Edge p c [] h = absurd h
parents-Edge p c (((q, d), r) ∷ g) h = ground (arith, parents-Edge p c g)

Edge-parent : (p c : ℕ) (g : Edges) → Edge g p c → Has p (parents c g)
unfolding parents find
Edge-parent p c [] h = cc
Edge-parent p c (((q, d), r) ∷ g) h = ground (arith, Edge-parent p c g)

pub Down-cons : (g : Edges) (n a b c : ℕ) → Edge g a b → Down g n b c → Down g (suc n) a c
Down-cons g zero a b c e h = (a, refl, subst (Edge g a) h e)
Down-cons g (suc n) a b c e (d, h, l) = (d, Down-cons g n a b d e h, l)

pub Down-length : (g : Edges) (m n a b : ℕ) → m ≡ n → Down g m a b → Down g n a b
Down-length g m n a b e h = subst (λ k. Down g k a b) e h

pub Down-append : (g : Edges) (m n a b c : ℕ) → Down g m a b → Down g n b c → Down g (n + m) a c
Down-append g m zero a b c h k =
    Down-length g m (0 + m) a c (omega arith) (subst (λ t. Down g m a t) k h)
Down-append g m (suc n) a b c h (d, k, e) =
    Down-length g (suc (n + m)) (suc n + m) a c (omega arith) (d, Down-append g m n a b d h k, e)

pub Walk-children : (g : Edges) (n a c : ℕ) → Walk (λ t. children t g) n a c ↔ Down g n a c
Walk-children g zero a c = ((λ h. h), λ h. h)
Walk-children g (suc n) a c = (
  (λ h. (h.0, (Walk-children g n a h.0).0 h.1, children-Edge h.0 c g h.2)),
  λ h. (h.0, (Walk-children g n a h.0).1 h.1, Edge-child h.0 c g h.2),
)

Walk-up : (g : Edges) (n a c : ℕ) → Walk (λ t. parents t g) n a c → Down g n c a
Walk-up g zero a c h = sym h
Walk-up g (suc n) a c (b, w, e) = Down-cons g n c b a (parents-Edge c b g e) (Walk-up g n a b w)

Walk-parents_cons :
    (g : Edges) (n a b c : ℕ)
    → Edge g b a
    → Walk (λ t. parents t g) n b c
    → Walk (λ t. parents t g) (suc n) a c
Walk-parents_cons g zero a b c e h =
    (a, refl, subst (λ t. Has t (parents a g)) h (Edge-parent b a g e))
Walk-parents_cons g (suc n) a b c e (d, h, l) = (d, Walk-parents_cons g n a b d e h, l)

Down-Walk : (g : Edges) (n a c : ℕ) → Down g n c a → Walk (λ t. parents t g) n a c
Down-Walk g zero a c h = sym h
Down-Walk g (suc n) a c (b, h, e) = Walk-parents_cons g n a b c e (Down-Walk g n b c h)

pub Walk-parents : (g : Edges) (n a c : ℕ) → Walk (λ t. parents t g) n a c ↔ Down g n c a
Walk-parents g n a c = (Walk-up g n a c, Down-Walk g n a c)
