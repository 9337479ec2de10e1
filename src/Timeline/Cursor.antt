-- ===== src/Timeline/Cursor.antt =====
-- The round trip of cursors of src/timeline.rs.
use meta_agent_control_plane.Prelude.{
  ℕ, ◌<◌, ◌≡◌, refl, true, false, List, [], ◌∷◌, ◌++◌, length, length-append, leb, ltb, nat_beq,
  if◌then◌else◌, arith, Bool-cases, inl, inr,
}
use meta_agent_control_plane.Timeline.Hex.{
  Text, contains_byte, lower_hex, length-lower_hex, lower_hex_undotted, Fits,
  from_str_radix-lower_hex,
}
use meta_agent_control_plane.Timeline.{
  uuid_bound, Formats, TimelineCursor, page, refused, invalid_cursor, cursor_version, split_dots,
  encode, parse_fields, parse,
}

split_dots-field :
    (field l : Text) {f : Text} {fs : List Text}
    → contains_byte b'.' field ≡ false
    → split_dots l ≡ f ∷ fs
    → split_dots (field ++ (b'.' ∷ l)) ≡ field ∷ f ∷ fs
unfolding split_dots contains_byte
split_dots-field [] l h e = rw (e, split_dots) refl
split_dots-field (c ∷ field) l h e =
    let plain : nat_beq c b'.' ≡ false = ground arith in
    rw (split_dots-field field l (ground arith) e, split_dots) (rw plain refl)

split_dots-last : (field : Text) → contains_byte b'.' field ≡ false → split_dots field ≡ field ∷ []
unfolding split_dots contains_byte
split_dots-last [] h = refl
split_dots-last (c ∷ field) h =
    let plain : nat_beq c b'.' ≡ false = ground arith in
    rw (split_dots-last field (ground arith), split_dots) (rw plain refl)

below_Fits_u64 : (n : ℕ) → n < 18446744073709551616 → Fits 16 n
below_Fits_u64 n h = omega arith

below_Fits_u32 : (n : ℕ) → n < 4294967296 → Fits 8 n
below_Fits_u32 n h = omega arith

module _ (formats : Formats) (c : TimelineCursor) where
  open formats use {timestamp, timestamp_subsec_nanos, simple}

  abbrev revision : Text
  revision = lower_hex 16 c.revision

  abbrev seconds : Text
  seconds = lower_hex 16 (timestamp c.occurred_at)

  abbrev nanos : Text
  nanos = lower_hex 8 (timestamp_subsec_nanos c.occurred_at)

  abbrev id : Text
  id = simple c.event_id

  split-encode :
      split_dots (encode formats c) ≡ cursor_version ∷ revision ∷ seconds ∷ nanos ∷ id ∷ []
  unfolding encode
  split-encode = split_dots-field cursor_version _ (unfold contains_byte in refl) (
      split_dots-field revision _ (lower_hex_undotted 16 c.revision) (
        split_dots-field seconds _ (lower_hex_undotted 16 (timestamp c.occurred_at)) (
          split_dots-field nanos _ (lower_hex_undotted 8 (timestamp_subsec_nanos c.occurred_at))
            (split_dots-last id (formats.simple_undotted c.event_id)))))

  length-encode : length (encode formats c) ≡ 78
  unfolding encode
  length-encode = omega (
    arith,
    length-append revision (b'.' ∷ (seconds ++ (b'.' ∷ (nanos ++ (b'.' ∷ id))))),
    length-append seconds (b'.' ∷ (nanos ++ (b'.' ∷ id))),
    length-append nanos (b'.' ∷ id),
    length-lower_hex 16 c.revision,
    length-lower_hex 16 (timestamp c.occurred_at),
    length-lower_hex 8 (timestamp_subsec_nanos c.occurred_at),
    formats.length-simple c.event_id,
  )

  parse_fields-encode :
      c.revision < 18446744073709551616
      → c.occurred_at < formats.time_bound
      → c.event_id < uuid_bound
      → parse_fields formats cursor_version revision seconds nanos id ≡ (
          if ltb (timestamp_subsec_nanos c.occurred_at) 1000000000
          then page c
          else refused invalid_cursor)
  unfolding parse_fields
  parse_fields-encode word time id_fits =
      let sec = formats.timestamp_lt c.occurred_at time in
      let sub = formats.nanos_lt c.occurred_at in
      let r =
        from_str_radix-lower_hex 18446744073709551615 16 c.revision (omega arith)
          (below_Fits_u64 _ word) (omega arith) in
      let s =
        from_str_radix-lower_hex 18446744073709551615 16 (timestamp c.occurred_at) (omega arith)
          (below_Fits_u64 _ sec) (omega arith) in
      let n =
        from_str_radix-lower_hex 4294967295 8 (timestamp_subsec_nanos c.occurred_at) (omega arith)
          (below_Fits_u32 _ (omega arith)) (omega arith) in
      rw
        (
          length-lower_hex 16 c.revision,
          length-lower_hex 16 (timestamp c.occurred_at),
          length-lower_hex 8 (timestamp_subsec_nanos c.occurred_at),
          formats.length-simple c.event_id,
        )
        (rw (r, s, n)
          (elim (Bool-cases (ltb (timestamp_subsec_nanos c.occurred_at) 1000000000)) [
            | inl plain ↦
                let early : leb 1000000000 (timestamp_subsec_nanos c.occurred_at) ≡ false =
                  ground arith in
                rw
                  (
                    early,
                    plain,
                    formats.timestamp_opt-timestamp c.occurred_at time (ground arith),
                    formats.parse-simple c.event_id id_fits,
                  )
                  refl
            | inr leap ↦
                let late : leb 1000000000 (timestamp_subsec_nanos c.occurred_at) ≡ true =
                  ground arith in
                rw (late, leap) refl
          ]))

  -- Reading a cursor that was written gives it back, unless its time lies in a leap second: that
  -- cursor is refused. The revision is a u64, and the time
  -- and the id are ones that the crates represent.
  pub parse-encode :
      c.revision < 18446744073709551616
      → c.occurred_at < formats.time_bound
      → c.event_id < uuid_bound
      → parse formats (encode formats c) ≡ (
          if ltb (timestamp_subsec_nanos c.occurred_at) 1000000000
          then page c
          else refused invalid_cursor)
  unfolding parse
  parse-encode word time id_fits =
      rw (length-encode, split-encode) (parse_fields-encode word time id_fits)
