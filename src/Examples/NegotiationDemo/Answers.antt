-- ===== src/Examples/NegotiationDemo/Answers.antt =====
-- examples/negotiation-demo/main.go: what the agents create and answer, and the end of the program.
use agent_semantic_protocol.Common.{◌≡◌, refl, some, Bytes, length, bytes_eq}
use agent_semantic_protocol.Common.Outcome.{ok}
use agent_semantic_protocol.Wire.Float32.{Float32}
use agent_semantic_protocol.Wire.Maps.{get, put}
use agent_semantic_protocol.Wire.Protowire.{Protowire}
use agent_semantic_protocol.Did
use agent_semantic_protocol.Did.{did_from_key}
use agent_semantic_protocol.Did.Packages.{Crypto, private_key_size}
use agent_semantic_protocol.Capability.{missing_capabilities, missing_loop, has, have_loop}
use agent_semantic_protocol.Negotiation.{
  default_handler, create_intent, random_id, with_signature, build_workflow, execute_steps,
  trust_delta, new_negotiation_bus, register, negotiate,
}
use agent_semantic_protocol.Host.{AgentHost}
use agent_semantic_protocol.Examples.NegotiationDemo.{
  World, intent_vector, required, payload, conclude,
}
use agent_semantic_protocol.Examples.NegotiationDemo.Callback.{enriched, code_callback}
use agent_semantic_protocol.Examples.NegotiationDemo.Calm.{
  Seeds, calm, requester, code_agent, limited_agent, asked, code_reply, limited_reply, final_trust,
  conclusion,
}

module _ (c : Crypto) (s : Seeds) where
  pub intent_created :
      (world : World)
      → length s.priv_r ≡ private_key_size
      → create_intent c (requester c s) intent_vector required payload (some s.id) world.intent_now
        ≡ ok (asked c s world)
  unfolding create_intent random_id Did.sign did_from_key
  intent_created world h = rw h refl

  pub callback_replied :
      (world : World) (our_id : Bytes)
      → length s.priv_c ≡ private_key_size
      → code_callback c (code_agent c s) world.callback_now our_id (asked c s world)
        ≡ ok (some (code_reply c s world))
  unfolding code_callback enriched default_handler with_signature Did.sign did_from_key
      missing_capabilities missing_loop has have_loop get put bytes_eq trust_delta
  callback_replied world our_id h = rw h refl

  pub limited_replied :
      (world : World)
      → length s.priv_l ≡ private_key_size
      → default_handler c (limited_agent c s) world.intent_env_l.stamp (asked c s world)
        ≡ ok (limited_reply c s world)
  unfolding default_handler with_signature Did.sign did_from_key missing_capabilities missing_loop
      has have_loop get put bytes_eq trust_delta
  limited_replied world h = rw h refl

  pub conclude_lem :
      (w : Protowire) (add : Float32 → Float32 → Float32) (world : World) (ah : AgentHost)
      → length s.priv_r ≡ private_key_size
      → length s.priv_c ≡ private_key_size
      → ah.trust ≡ final_trust c s add
      → conclude w c add (calm s world) (requester c s) (code_agent c s) (limited_agent c s) ah
        ≡ record { printed = conclusion c s add; outcome = ok tt }
  unfolding conclude create_intent random_id Did.sign did_from_key negotiate register
      new_negotiation_bus default_handler with_signature missing_capabilities missing_loop has
      have_loop get put bytes_eq build_workflow execute_steps
  conclude_lem w add world ah hr hc ht = rw (ht, hr, hc) refl
