-- ===== src/Explorer/Sessions.antt =====
-- How the sessions of src/explorer.rs count events.
use meta_agent_control_plane.Prelude.{
  ℕ, ◌+◌, ◌≤◌, min, ◌≡◌, refl, ap, sym, ◌∙◌, String, Bool, false, Option, none, some, List, [], ◌∷◌,
  All, All-imp, All-map, arith, Bool-cases, Option-cases, inl, inr, ◌==◌, string_eq, if◌then◌else◌,
  count, one_if, All-sort_by, map_get, map_get-map_insert, HasDistinctKeys, HasDistinctKeys-insert,
  All-found,
}
use meta_agent_control_plane.Model.{Uuid, saturating_suc, saturating_suc_le, u64_max}
use meta_agent_control_plane.Store.State.{EventRecord}
use meta_agent_control_plane.Explorer.Build.{
  Sessions, finish, new_session, is_latest, set_latest, note_event, observe, observed, file,
  file_all, sessions_of,
}
use meta_agent_control_plane.Explorer.Data.{SessionSummary, SessionAccumulator}

abbrev is_session : String → Option String → Bool
is_session id none = false
is_session id (some session_id) = session_id == id

-- The event belongs to the session.
abbrev pub in_session : String → EventRecord → Bool
in_session id r = is_session id r.event.session_id

abbrev count_in : Option SessionAccumulator → ℕ
count_in none = 0
count_in (some a) = a.event_count

abbrev counted : String → Sessions → ℕ
counted id sessions = count_in (map_get id sessions)

saturating_min : (n k : ℕ) → min (saturating_suc n + k) u64_max ≡ min (n + (1 + k)) u64_max
unfolding saturating_suc
saturating_min n k = ground arith

module _ (id_text : Uuid → String) where
  observed_count :
      (r : EventRecord) (a : Option SessionAccumulator)
      → (observed id_text r a).event_count ≡ saturating_suc (count_in a)
  unfolding observe note_event set_latest new_session saturating_suc
  observed_count r none = refl
  observed_count r (some a) = elim (Bool-cases (is_latest id_text r a)) [
    | inl later ↦ rw later refl
    | inr earlier ↦ rw earlier refl
  ]

  filed_count :
      (id : String) (r : EventRecord) (session_id : Option String) (sessions : Sessions)
      → counted id (file id_text r session_id sessions) ≡ (
          if is_session id session_id
          then saturating_suc (counted id sessions)
          else counted id sessions)
  filed_count id r none sessions = refl
  filed_count id r (some session_id) sessions =
      ap count_in (
        map_get-map_insert id session_id (observed id_text r (map_get session_id sessions))
          sessions)
      ∙ elim (Bool-cases (session_id == id)) [
        | inl same ↦ rw same (
            observed_count r (map_get session_id sessions)
            ∙ ap (λ k. saturating_suc (counted k sessions))
                ((string_eq.is_same_iff session_id id).0 same))
        | inr other ↦ rw other refl
      ]

  file_all-count :
      (id : String) (records : List EventRecord) (sessions : Sessions)
      → counted id sessions ≤ u64_max
      → counted id (file_all id_text records sessions)
        ≡ min (counted id sessions + count (in_session id) records) u64_max
  unfolding file_all
  file_all-count id [] sessions h = omega arith
  file_all-count id (r ∷ records) sessions h =
      let step = filed_count id r r.event.session_id sessions in
      elim (Bool-cases (in_session id r)) [
        | inl own ↦
            let now : counted id (file id_text r r.event.session_id sessions)
                ≡ saturating_suc (counted id sessions) =
              step ∙ rw own refl in
            let rest =
              file_all-count id records (file id_text r r.event.session_id sessions)
                (omega (arith, now, saturating_suc_le (counted id sessions))) in
            let grown = saturating_min (counted id sessions) (count (in_session id) records) in
            omega (arith, rest, now, grown, ap one_if own)
        | inr other ↦
            let now : counted id (file id_text r r.event.session_id sessions)
                ≡ counted id sessions =
              step ∙ rw other refl in
            let rest =
              file_all-count id records (file id_text r r.event.session_id sessions)
                (omega (arith, now)) in
            omega (arith, rest, now, ap one_if other)
      ]

  nothing_before :
      (id : String) (records : List EventRecord)
      → min (counted id [] + count (in_session id) records) u64_max
        ≡ min (count (in_session id) records) u64_max
  unfolding map_get
  nothing_before id records = omega arith

  file_all-HasDistinctKeys :
      (records : List EventRecord) (sessions : Sessions)
      → HasDistinctKeys sessions
      → HasDistinctKeys (file_all id_text records sessions)
  unfolding file_all
  file_all-HasDistinctKeys [] sessions distinct = distinct
  file_all-HasDistinctKeys (r ∷ records) sessions distinct =
      file_all-HasDistinctKeys records (file id_text r r.event.session_id sessions)
        (elim (Option-cases r.event.session_id) [
          | inl alone ↦ rw (alone, file) distinct
          | inr (session_id, e) ↦
              rw (e, file) (HasDistinctKeys-insert session_id _ sessions distinct)
        ])

  -- The count of a session is that of its events, and stops at the greatest u64.
  abbrev pub CountsIn : List EventRecord → SessionSummary → Type 0
  CountsIn records s = s.event_count ≡ min (count (in_session s.session_id) records) u64_max

  pub sessions_of-CountsIn :
      (records : List EventRecord) → All (CountsIn records) (sessions_of id_text records)
  unfolding sessions_of finish map_get
  sessions_of-CountsIn records =
      let filed = file_all id_text records [] in
      let found = All-found filed (file_all-HasDistinctKeys records [] tt) in
      All-sort_by _ (CountsIn records) _ (
        All-map (CountsIn records) finish _ (
          All-sort_by _ (λ (e : String × SessionAccumulator). CountsIn records (finish e)) filed
            (All-imp (λ (e : String × SessionAccumulator). map_get e.0 filed ≡ some e.1) _ filed
              (λ e h.
                ap count_in (sym h)
                ∙ file_all-count e.0 records [] (omega arith)
                ∙ nothing_before e.0 records)
              found)))
