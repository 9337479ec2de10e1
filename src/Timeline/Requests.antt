-- ===== src/Timeline/Requests.antt =====
-- The requests of src/timeline_api.rs: whom a page is given to, and the query that a cursor makes.
use meta_agent_control_plane.Prelude.{
  ℕ, ◌<◌, ◌≤◌, ◌≡◌, refl, ap, ◌∙◌, true, false, Option, none, some, List, [], ◌∷◌, ◌++◌, ltb,
  nat_beq, arith, Bool-cases, inl, inr, ◌⊎◌, subst, if◌then◌else◌,
}
use meta_agent_control_plane.Auth.{
  ConstantTime, AuthPolicy, granted, denied, Authorized, Header, authorize_read, bearer_token,
}
use meta_agent_control_plane.Store.State.{Snapshot}
use meta_agent_control_plane.Timeline.Hex.{
  Text, contains_byte, contains_byte-append, lower_hex, lower_hex_unjoined, same_text,
}
use meta_agent_control_plane.Timeline.Cursor.{parse-encode}
use meta_agent_control_plane.Timeline.{
  Formats, TimelinePolicy, TimelineCursor, TimelinePage, Paged, page, refused, is_bad_limit, parse,
  encode, uuid_bound, cursor_version, max_timeline_page_limit, invalid_limit, invalid_cursor,
  revision_changed,
}
use meta_agent_control_plane.Timeline.Build.{build_timeline_page}
use meta_agent_control_plane.Timeline.Query.{
  unknown_parameter, limit_name, ◌>>=◌, ApiError, bad_request, Answer, answered, failed,
  TimelineQuery, default_query, split_parameters, split_name, parse_usize, is_seen, set_limit,
  set_cursor, query_policy, into_answer, set_named, set_all, parse_query, timeline, cursor_name,
}

-- The page limit of the query is one that the timeline admits.
abbrev IsAdmitted : TimelineQuery → Type 0
IsAdmitted query = is_bad_limit (query_policy query) ≡ false

answered_inj : {A : Type 0} {a b : A} → answered a ≡ answered b → a ≡ b
answered_inj h = cc

>>=-eq-answered :
    {A B : Type 0} (m : Answer A) (f : A → Answer B) {b : B}
    → (m >>= f) ≡ answered b
    → (a : A) × (m ≡ answered a) × (f a ≡ answered b)
>>=-eq-answered (answered a) f h = (a, refl, h)
>>=-eq-answered (failed e) f h = cc

set_limit-IsAdmitted :
    (o : Option ℕ) (query : TimelineQuery) {next : TimelineQuery}
    → set_limit o query ≡ answered next
    → IsAdmitted next
unfolding set_limit is_bad_limit query_policy
set_limit-IsAdmitted none query h = cc
set_limit-IsAdmitted (some value) query h = ground arith

set_cursor-IsAdmitted :
    (o : Paged TimelineCursor) (query : TimelineQuery) {next : TimelineQuery}
    → IsAdmitted query
    → set_cursor o query ≡ answered next
    → IsAdmitted next
unfolding set_cursor query_policy
set_cursor-IsAdmitted (page c) query good h = subst IsAdmitted (answered_inj h) good
set_cursor-IsAdmitted (refused e) query good h = cc

admitted_limit :
    (policy : TimelinePolicy)
    → is_bad_limit policy ≡ false
    → (1 ≤ policy.limit) × (policy.limit ≤ max_timeline_page_limit)
unfolding is_bad_limit
admitted_limit policy h = ground arith

module _ (formats : Formats) where
  -- The arms for the two names.
  abbrev set_value : Text → Text → TimelineQuery → Answer TimelineQuery
  set_value name value query =
      if same_text name limit_name
      then set_limit (parse_usize value) query
      else if same_text name cursor_name
      then set_cursor (parse formats value) query
      else failed (bad_request (unknown_parameter name))

  set_value-IsAdmitted :
      (name value : Text) (query next : TimelineQuery)
      → IsAdmitted query
      → set_value name value query ≡ answered next
      → IsAdmitted next
  set_value-IsAdmitted name value query next good h =
      elim (Bool-cases (same_text name limit_name)) [
        | inl limit ↦ set_limit-IsAdmitted (parse_usize value) query (rw limit at h)
        | inr other ↦ elim (Bool-cases (same_text name cursor_name)) [
          | inl cursor ↦
              set_cursor-IsAdmitted (parse formats value) query good (rw (other, cursor) at h)
          | inr unknown ↦ let e = rw (other, unknown) at h in cc
        ]
      ]

  set_named-IsAdmitted :
      (seen : List Text) (query : TimelineQuery) (o : Option (Text × Text))
      (next : TimelineQuery × List Text)
      → IsAdmitted query
      → set_named formats seen query o ≡ answered next
      → IsAdmitted next.0
  unfolding set_named
  set_named-IsAdmitted seen query none next good h = cc
  set_named-IsAdmitted seen query (some (name, value)) next good h =
      elim (Bool-cases (is_seen name seen)) [
        | inl twice ↦ let e = rw twice at h in cc
        | inr once ↦
            let e =
              >>=-eq-answered (set_value name value query)
                (λ (q : TimelineQuery). answered (q, name ∷ seen)) (rw once at h) in
            subst (λ (n : TimelineQuery × List Text). IsAdmitted n.0) (answered_inj e.2)
              (set_value-IsAdmitted name value query e.0 good e.1)
      ]

  Answer-cases :
      {A : Type 0} (m : Answer A) → ((e : ApiError) × (m ≡ failed e)) ⊎ ((a : A) × (m ≡ answered a))
  Answer-cases (answered a) = inr (a, refl)
  Answer-cases (failed e) = inl (e, refl)

  set_all-IsAdmitted :
      (parameters seen : List Text) (query next : TimelineQuery)
      → IsAdmitted query
      → set_all formats parameters seen query ≡ answered next
      → IsAdmitted next
  unfolding set_all
  set_all-IsAdmitted [] seen query next good h = subst IsAdmitted (answered_inj h) good
  set_all-IsAdmitted (parameter ∷ parameters) seen query next good h =
      elim (Answer-cases (set_named formats seen query (split_name parameter))) [
        | inl (e, bad) ↦ let q = rw (bad, set_all) at h in cc
        | inr ((middle, names), fine) ↦
            set_all-IsAdmitted parameters names middle next
              (set_named-IsAdmitted seen query (split_name parameter) (middle, names) good fine)
              (rw (fine, set_all) at h)
      ]

  default_IsAdmitted : IsAdmitted default_query
  unfolding is_bad_limit query_policy
  default_IsAdmitted = refl

  parse_query-IsAdmitted :
      (raw : Option Text) (query : TimelineQuery)
      → parse_query formats raw ≡ answered query
      → IsAdmitted query
  unfolding parse_query
  parse_query-IsAdmitted none query h = subst IsAdmitted (answered_inj h) default_IsAdmitted
  parse_query-IsAdmitted (some []) query h = subst IsAdmitted (answered_inj h) default_IsAdmitted
  parse_query-IsAdmitted (some (c ∷ cs)) query h =
      set_all-IsAdmitted (split_parameters (c ∷ cs)) [] default_query query default_IsAdmitted h

  into_answer-answered :
      (o : Paged TimelinePage) (p : TimelinePage) → into_answer o ≡ answered p → o ≡ page p
  unfolding into_answer
  into_answer-answered (page q) p h = ap page (answered_inj h)
  into_answer-answered (refused invalid_limit) p h = cc
  into_answer-answered (refused invalid_cursor) p h = cc
  into_answer-answered (refused (revision_changed r c)) p h = cc

  Authorized-cases : (a : Authorized) → (a ≡ granted) ⊎ (a ≡ denied)
  Authorized-cases granted = inl refl
  Authorized-cases denied = inr refl

  -- A page is answered only to a caller who may read, for a query that parses, and it is the page
  -- of the snapshot for the cursor and the limit of that query, which lies between 1 and the
  -- greatest limit whatever the query says.
  pub timeline_answers :
      (constant_time : ConstantTime) (policy : AuthPolicy) (header : Header) (raw : Option Text)
      (snapshot : Snapshot) (p : TimelinePage)
      → timeline formats constant_time policy header raw snapshot ≡ answered p
      → (query : TimelineQuery) × (authorize_read constant_time policy (bearer_token header)
          ≡ granted)
        × (parse_query formats raw ≡ answered query)
        × (build_timeline_page formats snapshot (query_policy query) query.cursor ≡ page p)
        × (1 ≤ (query_policy query).limit)
        × ((query_policy query).limit ≤ max_timeline_page_limit)
  unfolding timeline
  timeline_answers constant_time policy header raw snapshot p h =
      elim (Authorized-cases (authorize_read constant_time policy (bearer_token header))) [
        | inr no_reader ↦ let e = rw (no_reader, timeline) at h in cc
        | inl reader ↦
            let found =
              >>=-eq-answered (parse_query formats raw)
                (λ (q : TimelineQuery).
                  into_answer (build_timeline_page formats snapshot (query_policy q) q.cursor))
                (rw (reader, timeline) at h) in
            let good = parse_query-IsAdmitted raw found.0 found.1 in
            (
              found.0,
              reader,
              found.1,
              into_answer-answered _ p found.2,
              (admitted_limit _ good).0,
              (admitted_limit _ good).1,
            )
      ]

  -- The split of a query of one cursor.
  one_parameter : (l : Text) → contains_byte b'&' l ≡ false → split_parameters l ≡ l ∷ []
  unfolding split_parameters contains_byte
  one_parameter [] h = refl
  one_parameter (c ∷ cs) h =
      let plain : nat_beq c b'&' ≡ false = ground arith in
      rw (one_parameter cs (ground arith), split_parameters) (rw plain refl)

  cursor_query :
      (value : Text) (cursor : TimelineCursor)
      → contains_byte b'&' value ≡ false
      → parse formats value ≡ page cursor
      → parse_query formats (some (cursor_name ++ (b'=' ∷ value)))
        ≡ answered (record { limit = none; cursor = some cursor })
  unfolding parse_query set_all set_named split_name is_seen set_cursor contains_byte
  cursor_query value cursor plain reads =
      rw (one_parameter (cursor_name ++ (b'=' ∷ value)) plain, set_all)
        (rw (reads, set_cursor) refl)

  -- A field of a cursor with what follows it.
  then_unjoined :
      (field rest : Text)
      → contains_byte b'&' field ≡ false
      → contains_byte b'&' rest ≡ false
      → contains_byte b'&' (field ++ (b'.' ∷ rest)) ≡ false
  unfolding contains_byte
  then_unjoined field rest h k = contains_byte-append b'&' field (b'.' ∷ rest) h k

  encode_unjoined : (c : TimelineCursor) → contains_byte b'&' (encode formats c) ≡ false
  unfolding encode
  encode_unjoined c = then_unjoined cursor_version _ (unfold contains_byte in refl) (
      then_unjoined (lower_hex 16 c.revision) _ (lower_hex_unjoined 16 c.revision) (
        then_unjoined (lower_hex 16 (formats.timestamp c.occurred_at)) _
          (lower_hex_unjoined 16 (formats.timestamp c.occurred_at))
          (then_unjoined (lower_hex 8 (formats.timestamp_subsec_nanos c.occurred_at)) _
            (lower_hex_unjoined 8 (formats.timestamp_subsec_nanos c.occurred_at))
            (formats.simple_unjoined c.event_id))))

  -- A client that sends `cursor=` with a cursor as a page hands it out asks for the page after that
  -- cursor, with the default limit: the query parses to the cursor. The revision is a u64, the time
  -- and the id are ones that the crates represent, and the time is not in a leap second.
  pub query-encode :
      (c : TimelineCursor)
      → c.revision < 18446744073709551616
      → c.occurred_at < formats.time_bound
      → c.event_id < uuid_bound
      → formats.timestamp_subsec_nanos c.occurred_at < 1000000000
      → parse_query formats (some (cursor_name ++ (b'=' ∷ encode formats c)))
        ≡ answered (record { limit = none; cursor = some c })
  query-encode c word time id early =
      let plain : ltb (formats.timestamp_subsec_nanos c.occurred_at) 1000000000 ≡ true =
        ground arith in
      cursor_query (encode formats c) c (encode_unjoined c)
        (parse-encode formats c word time id ∙ rw plain refl)
