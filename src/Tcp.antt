-- ===== src/Tcp.antt =====
-- src/tcp.rs: one connection, frame by frame. `serde_json` parses a line and is a parameter; the
-- codec's lines and the outcome of each write to the socket are inputs. The accept loop with its
-- connection limit, the log lines and the wording of the JSON answers are not modelled.
pub mod Refines
mod Tests
use meta_agent_control_plane.Prelude.{
  String, Bool, Option, none, some, List, [], ◌∷◌, if◌then◌else◌,
}
use meta_agent_control_plane.Auth.{ConstantTime, AuthPolicy, granted, denied, authorize_ingest}
use meta_agent_control_plane.Model.{
  DateTime, EventEnvelope, TransportPayload, into_parts, Transport,
}
use meta_agent_control_plane.Lru.{Lru}
use meta_agent_control_plane.Store.State.{StoreInner}
use meta_agent_control_plane.Store.Ingest.{IngestResult, record_rejection, ingest}

-- What the codec yields next, when it is handled, and whether the answer can be written.
pub record Frame : Type 0 where
  pub now : DateTime
  pub line : Option String
  pub delivered : Bool

-- The answer to a frame.
pub data Reply : Type 0 where
  invalid_frame : Reply
  invalid_json : Reply
  unauthorized : Reply
  ingested : IngestResult → Reply

module _ (lru : Lru) (constant_time : ConstantTime) (parse : String → Option TransportPayload)
    (auth : AuthPolicy) where
  pub record Step : Type 0 where
    pub inner : StoreInner lru
    pub reply : Reply

  unfoldable pub refuse : StoreInner lru → Reply → Step
  refuse inner reply = record { inner = record_rejection lru inner Transport.tcp; reply = reply }

  unfoldable pub handle_payload : StoreInner lru → DateTime → Option TransportPayload → Step
  unfolding refuse
  handle_payload inner now none = refuse inner invalid_json
  handle_payload inner now (some payload) =
      let (token, event) = into_parts payload in
      elim (authorize_ingest constant_time auth token) [
        | denied ↦ refuse inner unauthorized
        | granted ↦
            let done = ingest lru inner now event Transport.tcp in
            record { inner = done.inner; reply = ingested done.result }
      ]

  unfoldable pub handle_line : StoreInner lru → DateTime → Option String → Step
  unfolding refuse handle_payload
  handle_line inner now none = refuse inner invalid_frame
  handle_line inner now (some line) = handle_payload inner now (parse line)

  -- One round of the loop of `handle_connection`.
  unfoldable pub handle_frame : StoreInner lru → Frame → Step
  unfolding handle_line
  handle_frame inner frame = handle_line inner frame.now frame.line

  pub record Connection : Type 0 where
    pub inner : StoreInner lru
    pub replies : List Reply

  -- The frames of a connection that has the store to itself: the loop ends with the frames, or with
  -- the first answer that cannot be written.
  unfoldable pub handle_connection : StoreInner lru → List Frame → Connection
  unfolding handle_frame
  handle_connection inner [] = record { inner = inner; replies = [] }
  handle_connection inner (frame ∷ frames) =
      let step = handle_frame inner frame in
      let rest = handle_connection step.inner frames in
      if frame.delivered
      then record rest { replies = step.reply ∷ rest.replies }
      else record { inner = step.inner; replies = [] }
