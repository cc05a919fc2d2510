-- ===== src/Bdd/Store.antt =====
-- The global state of hw1/src/bdd.c: `bdd_nodes`, `bdd_hash_map`, `bdd_index_map` and
-- `free_node_counter`. A pointer into `bdd_nodes` is its index there. A computation returns `none`
-- where the C code would leave an array, or where a level does not fit its `char`.
use mathlib.Core.Path.{subst₂}
use cse_320_repository.Base.{sym, ◌∙◌, ℕ, ◌≡◌, Option, none, some}

abbrev pub bdd_num_leaves : ℕ
bdd_num_leaves = 256

abbrev pub bdd_nodes_max : ℕ
bdd_nodes_max = 1_048_576

abbrev pub bdd_hash_size : ℕ
bdd_hash_size = 2_097_169

pub record Node : Type 0 where
  pub level : ℕ
  pub left : ℕ
  pub right : ℕ

abbrev pub node : ℕ → ℕ → ℕ → Node
node level left right = record { level = level; left = left; right = right }

pub record Store : Type 0 where
  pub nodes : ℕ → Node
  pub hash_map : ℕ → Option ℕ
  pub index_map : ℕ → ℕ
  pub free_node_counter : ℕ

-- The globals before the first call: zeroed arrays, no pointer, and the first free index.
abbrev pub initial_store : Store
initial_store = record {
  nodes = λ k. node 0 0 0;
  hash_map = λ i. none;
  index_map = λ i. 0;
  free_node_counter = bdd_num_leaves;
}

abbrev pub M : Type 0 → Type 0
M A = Store → Option (A × Store)

abbrev pub pure : {A : Type 0} → A → M A
pure a s = some (a, s)

abbrev pub fault : {A : Type 0} → M A
fault s = none

infixl 5 ◌>>=◌ ◌>>◌
abbrev pub ◌>>=◌ : {A B : Type 0} → M A → (A → M B) → M B
◌>>=◌ m f s = elim (m s) [ none ↦ none | some (a, s') ↦ f a s' ]

abbrev pub ◌>>◌ : {A B : Type 0} → M A → M B → M B
◌>>◌ m k = m >>= λ _. k

-- A run that ends without a fault, in a value and a store of which `P` holds.
pub record Returns {A : Type 0} (P : A → Store → Type 0) (run : Option (A × Store)) : Type 0 where
  pub value : A
  pub store : Store
  pub ran : run ≡ some (value, store)
  pub holds : P value store

pub Returns-bind :
    {A B : Type 0} {P : A → Store → Type 0} (Q : B → Store → Type 0) (m : M A) (f : A → M B)
    (s : Store)
    → Returns P (m s)
    → ((a : A) (t : Store) → P a t → Returns Q (f a t))
    → Returns Q ((m >>= f) s)
Returns-bind Q m f s r k = rw (r.ran, ◌>>=◌) (k r.value r.store r.holds)

pub Returns-mono :
    {A : Type 0} {P : A → Store → Type 0} (Q : A → Store → Type 0) {run : Option (A × Store)}
    → Returns P run
    → ((a : A) (t : Store) → P a t → Q a t)
    → Returns Q run
Returns-mono Q r k = record {
  value = r.value;
  store = r.store;
  ran = r.ran;
  holds = k r.value r.store r.holds;
}

-- What holds of every run holds of a result that is known.
pub Returns-at :
    {A : Type 0} (P : A → Store → Type 0) {run : Option (A × Store)} (a : A) (t : Store)
    → Returns P run
    → run ≡ some (a, t)
    → P a t
Returns-at P a t r e =
    let q : some (r.value, r.store) ≡ some (a, t) = sym r.ran ∙ e in subst₂ P (cc q) (cc q) r.holds
