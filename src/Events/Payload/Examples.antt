-- ===== src/Events/Payload/Examples.antt =====
-- The creation of an entry that was stored from JavaScript.
use node_gemfire.Base.{ℤ, pos}
use node_gemfire.Conversions.Data.{number, null}
use node_gemfire.Conversions.Examples.{plain, sample}
use node_gemfire.Events.Registry.{Emission, create}
use node_gemfire.Events.Payload.{EntryEvent, stored_entry}

abbrev creation : Emission (EntryEvent ℤ)
creation = record {
  emitter = 10;
  event_name = create;
  event_payload = stored_entry plain (number (pos 3)) null sample;
}
