-- ===== src/Coordination/Fair.antt =====
-- How the loops of `select_assignments` in src/coordination.rs end.
use meta_agent_control_plane.Prelude.{
  ℕ, zero, suc, ◌+◌, ◌≤◌, ◌<◌, ◌≡◌, refl, ap, sym, ◌∙◌, String, true, false, List, [], ◌∷◌, All,
  length, arith, leb, Bool-cases, inl, inr, ◌⊎◌, count-all, subst, string_eq,
}
use meta_agent_control_plane.Coordination.Data.{Assignment}
use meta_agent_control_plane.Coordination.Select.{
  Selection, serve_from, serve_agent, serve_round, serve_rounds, fresh,
}
use meta_agent_control_plane.Coordination.Rounds.{
  Inv, IsServed, serve_elim, serve_round-Goes, serve_round-Inv,
}

module _ (P : Assignment → Type 0) (candidates : List Assignment) (ks : List String)
    (maximum maximum_per_agent : ℕ) where
  abbrev pub Kept : Selection → Type 0
  Kept = Inv P candidates ks maximum maximum_per_agent

  abbrev pub IsOut : Selection → String → Type 0
  IsOut = IsServed P candidates ks maximum maximum_per_agent

  idle_agent :
      (a : String) (s : Selection)
      → s.made_progress ≡ false
      → (serve_agent maximum_per_agent a s).made_progress ≡ false
      → (serve_agent maximum_per_agent a s ≡ s) × IsOut s a
  idle_agent a s =
      serve_elim P candidates ks maximum maximum_per_agent
        (λ t. s.made_progress ≡ false → t.made_progress ≡ false → (t ≡ s) × IsOut s a) a s
        (λ out _ _. (refl, out)) (λ c rest hit below. unfold serve_from in λ _ h. cc)

  idle_first :
      (agents : List String) (s : Selection)
      → (serve_round maximum maximum_per_agent agents s).made_progress ≡ false
      → s.made_progress ≡ false
  idle_first agents s still = elim (Bool-cases s.made_progress) [
    | inl served ↦
        let e =
          (serve_round-Goes P candidates ks maximum maximum_per_agent agents s).stays served in
        cc
    | inr idle ↦ idle
  ]

  -- A round that serves none leaves the variables, and no agent can be served.
  idle_round :
      (agents : List String) (s : Selection)
      → s.made_progress ≡ false
      → (serve_round maximum maximum_per_agent agents s).made_progress ≡ false
      → length s.selected < maximum
      → (serve_round maximum maximum_per_agent agents s ≡ s) × All (IsOut s) agents
  unfolding serve_round
  idle_round [] s idle still room = (refl, tt)
  idle_round (a ∷ agents) s idle still room =
      let full : leb maximum (length s.selected) ≡ false = ground arith in
      let later : (serve_round maximum maximum_per_agent agents
            (serve_agent maximum_per_agent a s)).made_progress
          ≡ false =
        rw (full, serve_round) at still in
      let first =
        idle_agent a s idle (idle_first agents (serve_agent maximum_per_agent a s) later) in
      let rest = idle_round agents s idle (rw first.0 at later) room in
      rw (full, serve_round)
        (ap (serve_round maximum maximum_per_agent agents) first.0 ∙ rest.0, (first.1, rest.1))

  abbrev pub IsEnd : List String → Selection → Type 0
  IsEnd order t = (maximum ≤ length t.selected) ⊎ All (IsOut t) order

  fresh-Inv : (s : Selection) → Kept s → Kept (fresh maximum maximum_per_agent s)
  fresh-Inv s inv = record {
    kept = inv.kept;
    counted = inv.counted;
    capped = inv.capped;
    limited = inv.limited;
    holds = inv.holds;
    filed = inv.filed;
    same_keys = inv.same_keys;
  }

  selected_le : (s : Selection) → Kept s → length s.selected ≤ length candidates
  selected_le s inv =
      omega (arith, inv.kept (λ _. true), count-all s.selected, count-all candidates)

  -- The outer loop ends by its test, with one more round than candidates are left to select.
  pub serve_rounds-IsEnd :
      (fuel : ℕ) (order : List String) (s : Selection)
      → Kept s
      → length candidates < fuel + length s.selected
      → Kept (serve_rounds maximum maximum_per_agent fuel order s)
        × IsEnd order (serve_rounds maximum maximum_per_agent fuel order s)
  unfolding serve_rounds
  serve_rounds-IsEnd zero order s inv enough = absurd (omega (arith, selected_le s inv))
  serve_rounds-IsEnd (suc fuel) order s inv enough =
      let before = fresh maximum maximum_per_agent s in
      let next = serve_round maximum maximum_per_agent order before in
      let kept =
        serve_round-Inv P candidates ks maximum maximum_per_agent order before (fresh-Inv s inv) in
      let goes = serve_round-Goes P candidates ks maximum maximum_per_agent order before in
      elim (Bool-cases (leb maximum (length next.selected))) [
        | inl full ↦ rw (full, serve_rounds) (kept, inl (ground arith))
        | inr room ↦ elim (Bool-cases next.made_progress) [
          | inl served ↦
              rw (room, served, serve_rounds)
                (serve_rounds-IsEnd fuel order next kept (omega (arith, goes.moves refl served)))
          | inr idle ↦
              let room_left : length next.selected < maximum = ground arith in
              let still =
                idle_round order before refl idle (omega (arith, goes.longer, room_left)) in
              rw (room, idle, serve_rounds)
                (kept, inr (subst (λ t. All (IsOut t) order) (sym still.0) still.1))
        ]
      ]
