-- ===== src/Coordination/Queues.antt =====
-- The queues of `select_assignments` in src/coordination.rs: what they hold, and taking from them.
use meta_agent_control_plane.Prelude.{
  ℕ, ◌+◌, ◌≡◌, refl, ap, sym, ◌∙◌, String, Bool, false, Option, none, some, List, [], ◌∷◌, ◌++◌,
  All, arith, Bool-cases, inl, inr, ◌==◌, string_eq, map_push, subst, ==-self, count, one_if,
  count-append,
}
use meta_agent_control_plane.Coordination.Data.{Assignment}
use meta_agent_control_plane.Coordination.Select.{
  Groups, group, pop_front, pop_here, put_back, flat,
}

-- How many queued candidates pass a test.
abbrev pub queued : (Assignment → Bool) → Groups → ℕ
queued test grouped = count test (flat grouped)

map_push-queued :
    (test : Assignment → Bool) (k : String) (c : Assignment) (grouped : Groups)
    → queued test (map_push k c grouped) ≡ one_if (test c) + queued test grouped
unfolding map_push
map_push-queued test k c [] = refl
map_push-queued test k c ((j, queue) ∷ grouped) = elim (Bool-cases (j == k)) [
  | inl same ↦ rw same (
      omega (
        arith,
        count-append test (queue ++ (c ∷ [])) (flat grouped),
        count-append test queue (c ∷ []),
        count-append test queue (flat grouped),
      ))
  | inr apart ↦ rw apart (
      omega (
        arith,
        count-append test queue (flat (map_push k c grouped)),
        count-append test queue (flat grouped),
        map_push-queued test k c grouped,
      ))
]

pub group-queued :
    (test : Assignment → Bool) (candidates : List Assignment) (grouped : Groups)
    → queued test (group candidates grouped) ≡ count test candidates + queued test grouped
unfolding group
group-queued test [] grouped = omega arith
group-queued test (c ∷ candidates) grouped = omega (
  arith,
  group-queued test candidates (map_push c.agent_id c grouped),
  map_push-queued test c.agent_id c grouped,
)

-- Each queue holds candidates of its agent, with a further property.
module _ (P : Assignment → Type 0) where
  abbrev pub IsFiled : String → Assignment → Type 0
  IsFiled k c = (c.agent_id ≡ k) × P c

  abbrev pub AreFiled : Groups → Type 0
  AreFiled [] = Unit
  AreFiled ((k, queue) ∷ grouped) = All (IsFiled k) queue × AreFiled grouped

  All-push :
      (k : String) (queue : List Assignment) (c : Assignment)
      → All (IsFiled k) queue
      → IsFiled k c
      → All (IsFiled k) (queue ++ (c ∷ []))
  All-push k [] c all own = (own, tt)
  All-push k (d ∷ queue) c all own = (all.0, All-push k queue c all.1 own)

  map_push-AreFiled :
      (k : String) (c : Assignment) (grouped : Groups)
      → IsFiled k c
      → AreFiled grouped
      → AreFiled (map_push k c grouped)
  unfolding map_push
  map_push-AreFiled k c [] own filed = ((own, tt), tt)
  map_push-AreFiled k c ((j, queue) ∷ grouped) own filed = elim (Bool-cases (j == k)) [
    | inl same ↦
        let e = (string_eq.is_same_iff j k).0 same in
        rw same (All-push j queue c filed.0 (own.0 ∙ sym e, own.1), filed.1)
    | inr apart ↦ rw apart (filed.0, map_push-AreFiled k c grouped own filed.1)
  ]

  pub group-AreFiled :
      (candidates : List Assignment) (grouped : Groups)
      → All P candidates
      → AreFiled grouped
      → AreFiled (group candidates grouped)
  unfolding group
  group-AreFiled [] grouped all filed = filed
  group-AreFiled (c ∷ candidates) grouped all filed =
      group-AreFiled candidates (map_push c.agent_id c grouped) all.1
        (map_push-AreFiled c.agent_id c grouped (refl, all.0) filed)

-- The keys, and that no two are the same.
abbrev pub keys : Groups → List String
keys [] = []
keys ((k, queue) ∷ grouped) = k ∷ keys grouped

abbrev pub AreApart : List String → Type 0
AreApart [] = Unit
AreApart (k ∷ ks) = All (λ (j : String). (k == j) ≡ false) ks × AreApart ks

map_push-other :
    (j k : String) (c : Assignment) (grouped : Groups)
    → (j == k) ≡ false
    → All (λ (i : String). (j == i) ≡ false) (keys grouped)
    → All (λ (i : String). (j == i) ≡ false) (keys (map_push k c grouped))
unfolding map_push
map_push-other j k c [] other all = (other, tt)
map_push-other j k c ((i, queue) ∷ grouped) other all = elim (Bool-cases (i == k)) [
  | inl same ↦ rw same all
  | inr apart ↦ rw apart (all.0, map_push-other j k c grouped other all.1)
]

map_push-AreApart :
    (k : String) (c : Assignment) (grouped : Groups)
    → AreApart (keys grouped)
    → AreApart (keys (map_push k c grouped))
unfolding map_push
map_push-AreApart k c [] apart = (tt, tt)
map_push-AreApart k c ((j, queue) ∷ grouped) apart = elim (Bool-cases (j == k)) [
  | inl same ↦ rw same apart
  | inr other ↦
      rw other (map_push-other j k c grouped other apart.0, map_push-AreApart k c grouped apart.1)
]

pub group-AreApart :
    (candidates : List Assignment) (grouped : Groups)
    → AreApart (keys grouped)
    → AreApart (keys (group candidates grouped))
unfolding group
group-AreApart [] grouped apart = apart
group-AreApart (c ∷ candidates) grouped apart =
    group-AreApart candidates (map_push c.agent_id c grouped)
      (map_push-AreApart c.agent_id c grouped apart)

-- What `pop_front` takes, and what it leaves.
pub record Pops (k : String) (grouped : Groups) (c : Assignment) (rest : Groups) : Type 1 where
  pub leaves : (test : Assignment → Bool) → queued test grouped ≡ one_if (test c) + queued test rest
  pub same_keys : keys rest ≡ keys grouped
  pub filed : (P : Assignment → Type 0) → AreFiled P grouped → IsFiled P k c × AreFiled P rest

abbrev pub PopsTo : String → Groups → Option (Assignment × Groups) → Type 1
PopsTo k grouped none = Unit
PopsTo k grouped (some (c, rest)) = Pops k grouped c rest

pop_here-PopsTo :
    (j : String) (queue : List Assignment) (grouped : Groups)
    → PopsTo j ((j, queue) ∷ grouped) (pop_here j queue grouped)
pop_here-PopsTo j [] grouped = tt
pop_here-PopsTo j (c ∷ queue) grouped = record {
  leaves = λ test. omega arith;
  same_keys = refl;
  filed = λ P f. (f.0.0, (f.0.1, f.1));
}

put_back-PopsTo :
    (k j : String) (queue : List Assignment) (grouped : Groups) (o : Option (Assignment × Groups))
    → PopsTo k grouped o
    → PopsTo k ((j, queue) ∷ grouped) (put_back (j, queue) o)
put_back-PopsTo k j queue grouped none pops = tt
put_back-PopsTo k j queue grouped (some (c, rest)) pops = record {
  leaves = λ test. omega (
    arith,
    count-append test queue (flat grouped),
    count-append test queue (flat rest),
    pops.leaves test,
  );
  same_keys = ap (λ (ks : List String). j ∷ ks) pops.same_keys;
  filed = λ P f. let further = pops.filed P f.1 in (further.0, (f.0, further.1));
}

pub pop_front-PopsTo : (k : String) (grouped : Groups) → PopsTo k grouped (pop_front k grouped)
unfolding pop_front
pop_front-PopsTo k [] = tt
pop_front-PopsTo k ((j, queue) ∷ grouped) = elim (Bool-cases (j == k)) [
  | inl same ↦ rw same (
      subst (λ (i : String). PopsTo i ((j, queue) ∷ grouped) (pop_here j queue grouped))
        ((string_eq.is_same_iff j k).0 same) (pop_here-PopsTo j queue grouped))
  | inr other ↦
      rw other
        (put_back-PopsTo k j queue grouped (pop_front k grouped) (pop_front-PopsTo k grouped))
]

-- An agent whose queue gives nothing has no candidate left.
abbrev pub HasNone : Groups → String × List Assignment → Type 0
HasNone grouped e = pop_front e.0 grouped ≡ none → e.1 ≡ []

pop_here-none :
    (k : String) (queue : List Assignment) (grouped : Groups)
    → pop_here k queue grouped ≡ none
    → queue ≡ []
pop_here-none k [] grouped h = refl
pop_here-none k (c ∷ queue) grouped h = cc

put_back-none :
    (e : String × List Assignment) (o : Option (Assignment × Groups))
    → put_back e o ≡ none
    → o ≡ none
put_back-none e none h = refl
put_back-none e (some (c, rest)) h = cc

later_HasNone :
    (j : String) (queue : List Assignment) (grouped entries : Groups)
    → All (λ (i : String). (j == i) ≡ false) (keys entries)
    → All (HasNone grouped) entries
    → All (HasNone ((j, queue) ∷ grouped)) entries
unfolding pop_front
later_HasNone j queue grouped [] apart all = tt
later_HasNone j queue grouped ((k, q) ∷ entries) apart all = (
  λ h. all.0 (put_back-none (j, queue) (pop_front k grouped) (rw (apart.0, pop_front) at h)),
  later_HasNone j queue grouped entries apart.1 all.1,
)

pub AreApart-HasNone : (grouped : Groups) → AreApart (keys grouped) → All (HasNone grouped) grouped
unfolding pop_front
AreApart-HasNone [] apart = tt
AreApart-HasNone ((j, queue) ∷ grouped) apart = (
  λ h. pop_here-none j queue grouped (rw (==-self j, pop_front) at h),
  later_HasNone j queue grouped grouped apart.0 (AreApart-HasNone grouped apart.1),
)
