-- ===== src/Runtime/Lifecycle.antt =====
-- The life of a control command of src/runtime/monitor.rs: pending until it is acknowledged.
use meta_agent_control_plane.Prelude.{
  ◌≡◌, refl, ap, String, true, false, not, some, List, [], ◌∷◌, map, arith, Bool-cases,
  Option-cases, ok, inl, inr, Checked-cases, ◌==◌, string_eq, filter, nat_beq, nat_beq_iff,
}
use meta_agent_control_plane.Model.Numbers.{Uuid, DateTime}
use meta_agent_control_plane.Runtime.Data.{
  ControlCommand, ControlCommandAck, command_agent_mismatch,
}
use meta_agent_control_plane.Runtime.Validation.{validate_ack}
use meta_agent_control_plane.Runtime.Monitor.{
  RuntimeState, is_pending, pending_for, find_command, write_command, settle, acknowledge_command,
  Outcome, done, refused, Called, contains_id,
}
use meta_agent_control_plane.Runtime.Tidy.{IsDistinct}

abbrev pub command_key : ControlCommand → Uuid
command_key command = command.command_id

-- The commands but for the one with the id.
abbrev pub others : Uuid → List ControlCommand → List ControlCommand
others id = filter (λ command. not (nat_beq command.command_id id))

module _ (now : DateTime) (ack : ControlCommandAck) where
  settle_not_pending :
      (command : ControlCommand) → is_pending (settle now ack command).status ≡ false
  unfolding settle
  settle_not_pending command = elim (Bool-cases ack.accepted) [
    | inl yea ↦ rw yea refl
    | inr nay ↦ rw nay refl
  ]

  settle_id : (command : ControlCommand) → (settle now ack command).command_id ≡ command.command_id
  unfolding settle
  settle_id command = refl

  find-write :
      (id : Uuid) (commands : List ControlCommand) {command : ControlCommand}
      → find_command id commands ≡ some command
      → find_command id (write_command id (settle now ack) commands) ≡ some (settle now ack command)
  unfolding find_command write_command settle
  find-write id [] h = cc
  find-write id (c ∷ commands) {command} h = elim (Bool-cases (nat_beq c.command_id id)) [
    | inl hit ↦ rw hit (rw (settle_id c, hit) (let e = rw hit at h in cc))
    | inr miss ↦ rw miss (rw miss (find-write id commands (rw miss at h)))
  ]

  others_absent :
      (id : Uuid) (a : String) (commands : List ControlCommand)
      → contains_id id (map command_key commands) ≡ false
      → others id (pending_for a commands) ≡ pending_for a commands
  unfolding pending_for filter contains_id
  others_absent id a [] h = refl
  others_absent id a (c ∷ commands) h = ground (arith, others_absent id a commands)

  pending-write :
      (id : Uuid) (a : String) (commands : List ControlCommand) {command : ControlCommand}
      → IsDistinct (map command_key commands)
      → find_command id commands ≡ some command
      → pending_for a (write_command id (settle now ack) commands)
        ≡ others id (pending_for a commands)
  unfolding find_command write_command pending_for filter
  pending-write id a [] d h = cc
  pending-write id a (c ∷ commands) d h = elim (Bool-cases (nat_beq c.command_id id)) [
    | inl hit ↦
        let e = (nat_beq_iff c.command_id id).0 hit in
        let rest = others_absent id a commands (rw (← e) d.0) in
        ground (arith, settle_not_pending c, rest)
    | inr miss ↦
        let ih = pending-write id a commands d.1 (rw miss at h) in
        rw miss (ground (arith, ih, miss))
  ]

-- What a successful acknowledgement did.
pub record IsSettling (state : RuntimeState) (now : DateTime) (ack : ControlCommandAck)
    (command : ControlCommand) : Type 0 where
  pub old : ControlCommand
  pub was : find_command ack.command_id state.commands ≡ some old
  pub is : command ≡ settle now ack old
  pub left :
      (acknowledge_command state now ack).state
      ≡ record state { commands = write_command ack.command_id (settle now ack) state.commands }

acknowledge_own :
    (state : RuntimeState) (now : DateTime) (ack : ControlCommandAck) (old : ControlCommand)
    → validate_ack ack ≡ ok
    → find_command ack.command_id state.commands ≡ some old
    → (old.agent_id == ack.agent_id) ≡ true
    → acknowledge_command state now ack ≡ record {
      state = record state {
        commands = write_command ack.command_id (settle now ack) state.commands;
      };
      result = done (settle now ack old);
    }
unfolding acknowledge_command
acknowledge_own state now ack old good hit own =
    rw (good, acknowledge_command) (rw (hit, acknowledge_command) (rw own refl))

acknowledge_other :
    (state : RuntimeState) (now : DateTime) (ack : ControlCommandAck) (old : ControlCommand)
    → validate_ack ack ≡ ok
    → find_command ack.command_id state.commands ≡ some old
    → (old.agent_id == ack.agent_id) ≡ false
    → (acknowledge_command state now ack).result ≡ refused command_agent_mismatch
unfolding acknowledge_command
acknowledge_other state now ack old good hit other =
    rw (good, acknowledge_command) (rw (hit, acknowledge_command) (rw other refl))

acknowledge-IsSettling :
    (state : RuntimeState) (now : DateTime) (ack : ControlCommandAck) (command : ControlCommand)
    → (acknowledge_command state now ack).result ≡ done command
    → IsSettling state now ack command
unfolding acknowledge_command
acknowledge-IsSettling state now ack command h = elim (Checked-cases (validate_ack ack)) [
  | inr (error, bad) ↦ let e = rw (bad, acknowledge_command) at h in cc
  | inl good ↦ elim (Option-cases (find_command ack.command_id state.commands)) [
    | inl missing ↦
        let e = rw (missing, acknowledge_command) at (rw (good, acknowledge_command) at h) in cc
    | inr (old, hit) ↦ elim (Bool-cases (old.agent_id == ack.agent_id)) [
      | inl own ↦
          let whole = acknowledge_own state now ack old good hit own in
          record {
            old = old;
            was = hit;
            is = let e = ap (λ (c : Called (Outcome ControlCommand)). c.result) whole in cc;
            left = ap (λ (c : Called (Outcome ControlCommand)). c.state) whole;
          }
      | inr other ↦ let e = acknowledge_other state now ack old good hit other in cc
    ]
  ]
]

-- Where no two retained commands share an id: a command that is acknowledged keeps its
-- new status in the list, is no longer handed to any agent, and every agent is handed all the others
-- as before.
pub acknowledged_is_settled :
    (state : RuntimeState) (now : DateTime) (ack : ControlCommandAck) (command : ControlCommand)
    → IsDistinct (map command_key state.commands)
    → (acknowledge_command state now ack).result ≡ done command
    → let after = (acknowledge_command state now ack).state.commands in
      (find_command ack.command_id after ≡ some command)
      × (is_pending command.status ≡ false)
      × ((a : String) → pending_for a after ≡ others ack.command_id (pending_for a state.commands))
acknowledged_is_settled state now ack command distinct h =
    let s = acknowledge-IsSettling state now ack command h in
    rw (s.left, s.is)
      (
        find-write now ack ack.command_id state.commands s.was,
        settle_not_pending now ack s.old,
        λ a. pending-write now ack ack.command_id a state.commands distinct s.was,
      )
