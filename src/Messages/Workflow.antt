-- ===== src/Messages/Workflow.antt =====
-- core/encoding.go: `WorkflowMessage.Encode`. The source has no decoder for it.
use agent_semantic_protocol.Common.{[], Bytes}
use agent_semantic_protocol.Wire.Protowire.{Protowire}
use agent_semantic_protocol.Wire.Encoder.{str, i64, str_map}
use agent_semantic_protocol.Messages.Types.{WorkflowMessage}

module _ (w : Protowire) where
  unfoldable pub encode : WorkflowMessage → Bytes
  encode m =
      let e1 = str w 1 m.workflow_id [] in
      let e2 = str w 2 m.step_id e1 in
      let e3 = str w 3 m.next_step_id e2 in
      let e4 = str w 4 m.agent_id e3 in
      let e5 = str w 5 m.did e4 in
      let e6 = str w 6 m.action e5 in
      let e7 = str_map w 7 m.params e6 in
      let e8 = str w 8 m.result_chan e7 in i64 w 9 m.timestamp e8
