-- ===== src/Timeline/Pages.antt =====
-- Following the cursors of src/timeline.rs lists every retained event once, newest first.
use meta_agent_control_plane.Prelude.{
  ℕ, zero, suc, ◌+◌, ◌≤◌, ◌<◌, ◌≡◌, refl, ap, none, some, List, [], ◌∷◌, ◌++◌, length, arith,
}
use meta_agent_control_plane.Store.State.{EventRecord}
use meta_agent_control_plane.Store.Ingest.{take}
use meta_agent_control_plane.Lru.Assoc.{last}
use meta_agent_control_plane.Timeline.Hex.{Text}
use meta_agent_control_plane.Timeline.{TimelinePage, max_timeline_page_limit}

pub take_all : (n : ℕ) (l : List EventRecord) → length l ≤ n → take n l ≡ l
unfolding take
take_all zero [] h = refl
take_all zero (x ∷ l) h = absurd (omega arith)
take_all (suc n) [] h = refl
take_all (suc n) (x ∷ l) h = ap (◌∷◌ x) (take_all n l (omega arith))

-- A full page: its events but the last, the last, and what is left.
pub record Cut (limit : ℕ) (l : List EventRecord) : Type 0 where
  pub front : List EventRecord
  pub end : EventRecord
  pub rest : List EventRecord
  pub taken : take limit l ≡ front ++ (end ∷ [])
  pub ends : last (take limit l) ≡ some end
  pub whole : l ≡ front ++ (end ∷ rest)

last-cons :
    (x : EventRecord) (l : List EventRecord) {y : EventRecord}
    → last l ≡ some y
    → last (x ∷ l) ≡ some y
unfolding last
last-cons x [] h = cc
last-cons x (z ∷ l) h = h

pub cut : (limit : ℕ) (l : List EventRecord) → 0 < limit → limit < length l → Cut limit l
unfolding take last
cut zero l h k = absurd (omega arith)
cut (suc n) [] h k = absurd (omega arith)
cut (suc zero) (x ∷ l) h k = record {
  front = [];
  end = x;
  rest = l;
  taken = refl;
  ends = refl;
  whole = refl;
}
cut (suc (suc n)) (x ∷ l) h k =
    let c = cut (suc n) l (omega arith) (omega arith) in
    record {
      front = x ∷ c.front;
      end = c.end;
      rest = c.rest;
      taken = ap (◌∷◌ x) c.taken;
      ends = last-cons x (take (suc n) l) c.ends;
      whole = ap (◌∷◌ x) c.whole;
    }

-- The counts of a page add up, it holds at most the limit, and there is a next cursor exactly when
-- older events remain.
pub record AddsUp (p : TimelinePage) : Type 0 where
  pub total : p.newer_retained_events_skipped + p.returned + p.remaining_older ≡ p.retained_total
  pub returned : p.returned ≡ length p.events
  pub limited : p.returned ≤ p.policy.limit
  pub limit : p.policy.limit ≤ max_timeline_page_limit
  pub more : 0 < p.remaining_older → (text : Text) × (p.next_cursor ≡ some text)
  pub no_more : p.remaining_older ≡ 0 → p.next_cursor ≡ none
