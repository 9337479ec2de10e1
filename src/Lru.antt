-- ===== src/Lru.antt =====
-- The cache of the third-party crate `lru`, which src/store.rs keeps its state in: the operations
-- that the store calls, with the behaviour that the crate documents. The crate's code is not part
-- of the repository, so the cache is a parameter of every definition that uses it.
pub mod Assoc
pub mod Laws
pub mod Weights
pub mod Sample
use meta_agent_control_plane.Prelude.{ℕ, ◌≡◌, Option, List, [], ◌∷◌, length, PartialEq}
use Assoc.{lookup, modify, push_items, displaced}

-- Keys are compared by `PartialEq`; `iter` lists the entries, the most recently used first. `get` and
-- `get_mut` make the entry that they find the most recent one; the writes that the caller makes
-- through the reference of `get_mut` are its function argument. `push` returns the entry that it
-- replaced, or the least recently used entry when it made room for a new key.
pub record Lru : Type 1 where
  pub LruCache : Type 0 → Type 0 → Type 0
  pub new : {K V : Type 0} → ℕ → LruCache K V
  pub cap : {K V : Type 0} → LruCache K V → ℕ
  pub len : {K V : Type 0} → LruCache K V → ℕ
  pub iter : {K V : Type 0} → LruCache K V → List (K × V)
  pub peek : {K V : Type 0} → PartialEq K → LruCache K V → K → Option V
  pub get : {K V : Type 0} → PartialEq K → LruCache K V → K → Option V × LruCache K V
  pub get_mut : {K V : Type 0} → PartialEq K → LruCache K V → K → (V → V) → LruCache K V
  pub push : {K V : Type 0} → PartialEq K → LruCache K V → K → V → LruCache K V × Option (K × V)
  pub cap-new : {K V : Type 0} (n : ℕ) → cap (new {K = K} {V = V} n) ≡ n
  pub iter-new : {K V : Type 0} (n : ℕ) → iter (new {K = K} {V = V} n) ≡ []
  pub len-iter : {K V : Type 0} (c : LruCache K V) → len c ≡ length (iter c)
  pub peek-iter :
      {K V : Type 0} (e : PartialEq K) (c : LruCache K V) (k : K)
      → peek e c k ≡ lookup ⦃e = e⦄ k (iter c)
  pub get-iter :
      {K V : Type 0} (e : PartialEq K) (c : LruCache K V) (k : K)
      → (get e c k).0 ≡ lookup ⦃e = e⦄ k (iter c)
  pub iter-get :
      {K V : Type 0} (e : PartialEq K) (c : LruCache K V) (k : K)
      → iter (get e c k).1 ≡ modify ⦃e = e⦄ k (λ v. v) (iter c)
  pub iter-get_mut :
      {K V : Type 0} (e : PartialEq K) (c : LruCache K V) (k : K) (f : V → V)
      → iter (get_mut e c k f) ≡ modify ⦃e = e⦄ k f (iter c)
  pub iter-push :
      {K V : Type 0} (e : PartialEq K) (c : LruCache K V) (k : K) (v : V)
      → iter (push e c k v).0 ≡ push_items ⦃e = e⦄ (cap c) k v (iter c)
  pub push-displaced :
      {K V : Type 0} (e : PartialEq K) (c : LruCache K V) (k : K) (v : V)
      → (push e c k v).1 ≡ displaced ⦃e = e⦄ (cap c) k (iter c)
  pub cap-get :
      {K V : Type 0} (e : PartialEq K) (c : LruCache K V) (k : K) → cap (get e c k).1 ≡ cap c
  pub cap-get_mut :
      {K V : Type 0} (e : PartialEq K) (c : LruCache K V) (k : K) (f : V → V)
      → cap (get_mut e c k f) ≡ cap c
  pub cap-push :
      {K V : Type 0} (e : PartialEq K) (c : LruCache K V) (k : K) (v : V)
      → cap (push e c k v).0 ≡ cap c
