-- ===== src/Lru/Sample.antt =====
-- A recency list with its capacity, which behaves as the crate's cache is documented to: the
-- assumptions on the crate can be met, and the definitions run on it.
use meta_agent_control_plane.Prelude.{ℕ, List, [], length, refl}
use meta_agent_control_plane.Lru.{Lru}
use meta_agent_control_plane.Lru.Assoc.{lookup, modify, push_items, displaced}

pub record RecencyList (K V : Type 0) : Type 0 where
  pub capacity : ℕ
  pub items : List (K × V)

abbrev pub recency_lru : Lru
recency_lru = record {
  LruCache = RecencyList;
  new = λ n. record { capacity = n; items = [] };
  cap = λ c. c.capacity;
  len = λ c. length c.items;
  iter = λ c. c.items;
  peek = λ e c k. lookup ⦃e = e⦄ k c.items;
  get = λ e c k. (lookup ⦃e = e⦄ k c.items, record c { items = modify ⦃e = e⦄ k (λ v. v) c.items });
  get_mut = λ e c k f. record c { items = modify ⦃e = e⦄ k f c.items };
  push = λ e c k v. (
    record c { items = push_items ⦃e = e⦄ c.capacity k v c.items },
    displaced ⦃e = e⦄ c.capacity k c.items,
  );
  cap-new = λ n. refl;
  iter-new = λ n. refl;
  len-iter = λ c. refl;
  peek-iter = λ e c k. refl;
  get-iter = λ e c k. refl;
  iter-get = λ e c k. refl;
  iter-get_mut = λ e c k f. refl;
  iter-push = λ e c k v. refl;
  push-displaced = λ e c k v. refl;
  cap-get = λ e c k. refl;
  cap-get_mut = λ e c k f. refl;
  cap-push = λ e c k v. refl;
}
