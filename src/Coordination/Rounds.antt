-- ===== src/Coordination/Rounds.antt =====
-- The loops of `select_assignments` in src/coordination.rs: their invariant and their end.
use meta_agent_control_plane.Prelude.{
  ℕ, suc, ◌+◌, ◌≤◌, ◌<◌, ◌≡◌, refl, ap, ◌∙◌, String, Bool, true, false, none, some, List, [], ◌∷◌,
  ◌++◌, All, length, length-append, arith, leb, Bool-cases, Option-cases, inl, inr, ◌⊎◌, ◌==◌,
  string_eq, map_insert, map_get-map_insert, count, one_if, count-append, if◌then◌else◌, subst,
}
use meta_agent_control_plane.Coordination.Data.{Assignment}
use meta_agent_control_plane.Coordination.Select.{
  Groups, Counted, Selection, pop_front, count_of, or_zero, serve_from, serve_agent, serve_round,
}
use meta_agent_control_plane.Coordination.Queues.{
  queued, AreFiled, keys, Pops, PopsTo, pop_front-PopsTo,
}

-- The assignment is for the agent.
abbrev pub is_for : String → Assignment → Bool
is_for agent_id a = a.agent_id == agent_id

count_of-insert :
    (a agent_id : String) (n : ℕ) (counts : Counted)
    → count_of a (map_insert agent_id n counts) ≡ (if agent_id == a then n else count_of a counts)
unfolding count_of
count_of-insert a agent_id n counts =
    ap or_zero (map_get-map_insert a agent_id n counts)
    ∙ elim (Bool-cases (agent_id == a)) [ inl same ↦ rw same refl | inr other ↦ rw other refl ]

one_if_le : (b : Bool) → one_if b ≤ 1
one_if_le true = omega arith
one_if_le false = omega arith

module _ (P : Assignment → Type 0) (candidates : List Assignment) (ks : List String)
    (maximum maximum_per_agent : ℕ) where
  -- What the loops keep. Each candidate is selected or still queued, as counted by any test.
  pub record Inv (s : Selection) : Type 0 where
    pub kept :
        (test : Assignment → Bool)
        → count test s.selected + queued test s.grouped ≡ count test candidates
    pub counted : (a : String) → count_of a s.selected_per_agent ≡ count (is_for a) s.selected
    pub capped : (a : String) → count (is_for a) s.selected ≤ maximum_per_agent
    pub limited : length s.selected ≤ maximum
    pub holds : All P s.selected
    pub filed : AreFiled P s.grouped
    pub same_keys : keys s.grouped ≡ ks

  -- The agent cannot be served.
  abbrev pub IsServed : Selection → String → Type 0
  IsServed s a =
      (maximum_per_agent ≤ count_of a s.selected_per_agent) ⊎ (pop_front a s.grouped ≡ none)

  pub serve_elim :
      (Q : Selection → Type 0) (a : String) (s : Selection)
      → (IsServed s a → Q s)
      → ((c : Assignment) (rest : Groups)
          → pop_front a s.grouped ≡ some (c, rest)
          → count_of a s.selected_per_agent < maximum_per_agent
          → Q (serve_from a s (some (c, rest))))
      → Q (serve_agent maximum_per_agent a s)
  unfolding serve_agent
  serve_elim Q a s stays serves =
      elim (Bool-cases (leb maximum_per_agent (count_of a s.selected_per_agent))) [
        | inl full ↦ rw full (stays (inl (ground arith)))
        | inr room ↦ elim (Option-cases (pop_front a s.grouped)) [
          | inl empty ↦ rw (room, empty) (stays (inr empty))
          | inr ((c, rest), hit) ↦ rw (room, hit) (serves c rest hit (ground arith))
        ]
      ]

  All-concat : (l : List Assignment) (c : Assignment) → All P l → P c → All P (l ++ (c ∷ []))
  All-concat [] c all p = (p, tt)
  All-concat (d ∷ l) c all p = (all.0, All-concat l c all.1 p)

  served_count :
      (a b : String) (c : Assignment) (s : Selection)
      → c.agent_id ≡ a
      → count_of b s.selected_per_agent ≡ count (is_for b) s.selected
      → count_of b (map_insert a (suc (count_of a s.selected_per_agent)) s.selected_per_agent)
        ≡ count (is_for b) (s.selected ++ (c ∷ []))
  served_count a b c s own counted =
      count_of-insert b a (suc (count_of a s.selected_per_agent)) s.selected_per_agent
      ∙ elim (Bool-cases (a == b)) [
        | inl same ↦
            let e = (string_eq.is_same_iff a b).0 same in
            let hit : is_for b c ≡ true = (string_eq.is_same_iff c.agent_id b).1 (own ∙ e) in
            rw same (
              omega (
                arith,
                counted,
                count-append (is_for b) s.selected (c ∷ []),
                ap (λ x. count_of x s.selected_per_agent) e,
                ap one_if hit,
              ))
        | inr other ↦
            let miss : is_for b c ≡ false = rw own other in
            rw other
              (omega (arith, counted, count-append (is_for b) s.selected (c ∷ []), ap one_if miss))
      ]

  served_capped :
      (a b : String) (c : Assignment) (s : Selection)
      → Inv s
      → count_of a s.selected_per_agent < maximum_per_agent
      → c.agent_id ≡ a
      → count (is_for b) (s.selected ++ (c ∷ [])) ≤ maximum_per_agent
  served_capped a b c s inv below own = elim (Bool-cases (a == b)) [
    | inl same ↦ omega (
      arith,
      inv.counted b,
      count-append (is_for b) s.selected (c ∷ []),
      ap (λ x. count_of x s.selected_per_agent) ((string_eq.is_same_iff a b).0 same),
      one_if_le (is_for b c),
    )
    | inr other ↦
        let miss : is_for b c ≡ false = rw own other in
        omega (arith, inv.capped b, count-append (is_for b) s.selected (c ∷ []), ap one_if miss)
  ]

  serve_from-Inv :
      (a : String) (s : Selection) (c : Assignment) (rest : Groups)
      → Inv s
      → length s.selected < maximum
      → pop_front a s.grouped ≡ some (c, rest)
      → count_of a s.selected_per_agent < maximum_per_agent
      → Inv (serve_from a s (some (c, rest)))
  unfolding serve_from
  serve_from-Inv a s c rest inv room hit below =
      let pops : Pops a s.grouped c rest =
        subst (PopsTo a s.grouped) hit (pop_front-PopsTo a s.grouped) in
      let found = pops.filed P inv.filed in
      record {
        kept = λ test.
            omega (arith, inv.kept test, pops.leaves test, count-append test s.selected (c ∷ []));
        counted = λ b. served_count a b c s found.0.0 (inv.counted b);
        capped = λ b. served_capped a b c s inv below found.0.0;
        limited = omega (arith, length-append s.selected (c ∷ []));
        holds = All-concat s.selected c inv.holds found.0.1;
        filed = found.1;
        same_keys = pops.same_keys ∙ inv.same_keys;
      }

  serve_agent-Inv :
      (a : String) (s : Selection)
      → Inv s
      → length s.selected < maximum
      → Inv (serve_agent maximum_per_agent a s)
  serve_agent-Inv a s inv room =
      serve_elim Inv a s (λ _. inv)
        (λ c rest hit below. serve_from-Inv a s c rest inv room hit below)

  pub serve_round-Inv :
      (agents : List String) (s : Selection)
      → Inv s
      → Inv (serve_round maximum maximum_per_agent agents s)
  unfolding serve_round
  serve_round-Inv [] s inv = inv
  serve_round-Inv (a ∷ agents) s inv = elim (Bool-cases (leb maximum (length s.selected))) [
    | inl full ↦ rw (full, serve_round) inv
    | inr room ↦
        rw (room, serve_round)
          (serve_round-Inv agents (serve_agent maximum_per_agent a s)
            (serve_agent-Inv a s inv (ground arith)))
  ]

  -- A call that serves none leaves the variables.
  pub record Goes (s t : Selection) : Type 0 where
    pub longer : length s.selected ≤ length t.selected
    pub moves :
        s.made_progress ≡ false → t.made_progress ≡ true → length s.selected < length t.selected
    pub stays : s.made_progress ≡ true → t.made_progress ≡ true

  pub serve_agent-Goes : (a : String) (s : Selection) → Goes s (serve_agent maximum_per_agent a s)
  serve_agent-Goes a s =
      serve_elim (Goes s) a s
        (λ _. record { longer = omega arith; moves = λ h k. cc; stays = λ h. h })
        (λ c rest hit below.
          unfold serve_from in
          record {
            longer = omega (arith, length-append s.selected (c ∷ []));
            moves = λ h k. omega (arith, length-append s.selected (c ∷ []));
            stays = λ h. refl;
          })

  pub serve_round-Goes :
      (agents : List String) (s : Selection)
      → Goes s (serve_round maximum maximum_per_agent agents s)
  unfolding serve_round
  serve_round-Goes [] s = record { longer = omega arith; moves = λ h k. cc; stays = λ h. h }
  serve_round-Goes (a ∷ agents) s = elim (Bool-cases (leb maximum (length s.selected))) [
    | inl full ↦
        rw (full, serve_round) (record { longer = omega arith; moves = λ h k. cc; stays = λ h. h })
    | inr room ↦
        let first = serve_agent-Goes a s in
        let rest = serve_round-Goes agents (serve_agent maximum_per_agent a s) in
        rw (room, serve_round)
          (record {
            longer = omega (arith, first.longer, rest.longer);
            moves = λ h k. elim (Bool-cases (serve_agent maximum_per_agent a s).made_progress) [
              | inl served ↦ omega (arith, first.moves h served, rest.longer)
              | inr idle ↦ omega (arith, first.longer, rest.moves idle k)
            ];
            stays = λ h. rest.stays (first.stays h);
          })
  ]
