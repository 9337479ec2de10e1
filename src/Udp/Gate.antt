-- ===== src/Udp/Gate.antt =====
-- The UDP listener is a gate: what it lets through to the store.
use meta_agent_control_plane.Prelude.{
  ℕ, zero, suc, ◌≤◌, ◌≡◌, ◌⊎◌, inl, inr, refl, ap, true, false, Option, some, List, [], ◌∷◌, length,
  ltb, leb, arith, Bool-cases, Option-cases,
}
use meta_agent_control_plane.Auth.{ConstantTime, AuthPolicy, granted, authorize_ingest}
use meta_agent_control_plane.Auth.Laws.{Authorized-cases}
use meta_agent_control_plane.Model.{
  DateTime, EventEnvelope, TransportPayload, into_parts, Transport, allowed_over_udp,
}
use meta_agent_control_plane.Lru.{Lru}
use meta_agent_control_plane.Store.State.{StoreInner}
use meta_agent_control_plane.Store.Ingest.{take, record_rejection}
use meta_agent_control_plane.Udp.{
  silence, transport_policy, Handled, handle_payload, handle_datagram,
}

pub take_whole : (n : ℕ) (l : List ℕ) → length l ≤ n → take n l ≡ l
unfolding take
take_whole zero [] h = refl
take_whole zero (x ∷ l) h = absurd (omega arith)
take_whole (suc n) [] h = refl
take_whole (suc n) (x ∷ l) h = ap (◌∷◌ x) (take_whole n l (omega arith))

pub length-take : (n : ℕ) (l : List ℕ) → n ≤ length l → length (take n l) ≡ n
unfolding take
length-take zero l h = refl
length-take (suc n) [] h = absurd (omega arith)
length-take (suc n) (x ∷ l) h = omega (arith, length-take n l (omega arith))

module _ (lru : Lru) (constant_time : ConstantTime) (parse : List ℕ → Option TransportPayload)
    (auth : AuthPolicy) (limit : ℕ) (inner : StoreInner lru) (now : DateTime) where
  -- The datagram reaches the store: it is within the limit, parses, carries the right token, and
  -- its event is low-authority telemetry.
  pub record IsAdmitted (datagram : List ℕ) (event : EventEnvelope) : Type 0 where
    pub payload : TransportPayload
    pub short : length datagram ≤ limit
    pub parses : parse datagram ≡ some payload
    pub carries : (into_parts payload).1 ≡ event
    pub authorized : authorize_ingest constant_time auth (into_parts payload).0 ≡ granted
    pub telemetry : allowed_over_udp event.event ≡ true

  abbrev handled : List ℕ → Handled lru constant_time parse
  handled = handle_datagram lru constant_time parse auth limit inner now

  -- The store takes the rejection of a frame and no event.
  abbrev pub IsRefused : Handled lru constant_time parse → Type 0
  IsRefused h =
      (h.inner ≡ record_rejection lru inner Transport.udp)
      × ((h.response ≡ silence) ⊎ (h.response ≡ transport_policy))

  payload-IsRefused :
      (datagram : List ℕ)
      → length datagram ≤ limit
      → IsRefused (handle_payload lru constant_time parse auth inner now (parse datagram))
        ⊎ ((event : EventEnvelope) × IsAdmitted datagram event)
  unfolding handle_payload
  payload-IsRefused datagram short = elim (Option-cases (parse datagram)) [
    | inl bad ↦ inl (rw (bad, handle_payload) (refl, inl refl))
    | inr (payload, parses) ↦
        elim (Authorized-cases (authorize_ingest constant_time auth (into_parts payload).0)) [
          | inr no_entry ↦ inl (rw (parses, handle_payload) (rw no_entry (refl, inl refl)))
          | inl entry ↦ elim (Bool-cases (allowed_over_udp (into_parts payload).1.event)) [
            | inr heavy ↦ inl (rw (parses, handle_payload) (rw entry (rw heavy (refl, inr refl))))
            | inl light ↦ inr (
              (into_parts payload).1,
              record {
                payload = payload;
                short = short;
                parses = parses;
                carries = refl;
                authorized = entry;
                telemetry = light;
              },
            )
          ]
        ]
  ]

  -- A datagram is refused unless it is within the limit, parses, carries the right token and holds
  -- low-authority telemetry: the store counts one rejected UDP frame and is otherwise as it was, and
  -- the answer is silence or the policy error.
  pub udp_refuses_rest :
      (datagram : List ℕ)
      → IsRefused (handled datagram) ⊎ ((event : EventEnvelope) × IsAdmitted datagram event)
  unfolding handle_datagram
  udp_refuses_rest datagram = elim (Bool-cases (leb (length datagram) limit)) [
    | inr long ↦
        let over : ltb limit (length (take (suc limit) datagram)) ≡ true =
          rw (length-take (suc limit) datagram (ground arith)) (ground arith) in
        inl (rw over (refl, inl refl))
    | inl short ↦
        let whole = take_whole (suc limit) datagram (ground arith) in
        let fits : ltb limit (length datagram) ≡ false = ground arith in
        rw (whole, fits) (payload-IsRefused datagram (ground arith))
  ]
