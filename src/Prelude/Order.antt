-- ===== src/Prelude/Order.antt =====
-- Comparisons that return an `Ordering`, and sorting by one.
use Prim.Native.Nat.{Ordering}
use Prim.Native.String as Texts
use Prim.Native.String.{String}
use mathlib.Core.Bool.{Bool, true, false}
use mathlib.Core.List.{List}
use mathlib.Core.Path.{◌≡◌, sym, ◌∙◌}
use meta_agent_control_plane.Prelude.Lists.{length}
use meta_agent_control_plane.Prelude.Sort.{sort_by}
use meta_agent_control_plane.Prelude.Counts.{count-all, count-sort_by}

-- `Ordering::then_with`.
abbrev pub then_with : Ordering → Ordering → Ordering
then_with Ordering.eq next = next
then_with Ordering.lt next = Ordering.lt
then_with Ordering.gt next = Ordering.gt

abbrev pub is_less : Ordering → Bool
is_less Ordering.lt = true
is_less _ = false

-- `Ord` of `String`, by code points.
abbrev pub compare_text : String → String → Ordering
compare_text = Texts.compare

-- `Ord` of a pair of texts.
abbrev pub compare_pair : String × String → String × String → Ordering
compare_pair (a, b) (c, d) = then_with (compare_text a c) (compare_text b d)

-- `sort_by`.
abbrev pub sort_with : {A : Type 0} → (A → A → Ordering) → List A → List A
sort_with cmp l = sort_by (λ a b. is_less (cmp a b)) l

pub length-sort_with :
    {A : Type 0} (cmp : A → A → Ordering) (l : List A) → length (sort_with cmp l) ≡ length l
length-sort_with cmp l =
    sym (count-all (sort_with cmp l)) ∙ count-sort_by _ (λ _. true) l ∙ count-all l
