-- ===== src/Receiver/Forward.antt =====
-- cmd/recv.go: the forwarding loop of `runRecvNormal`, from a datagram to the multicast group.
--
-- `decrypt` is `crypto.DecryptGCMWithAEAD`, with `none` for its error; `now` is the clock. A failed
-- write to the group is only logged.
pub mod Plain
use multicast_bridge.Common.{
  ℕ, ◌+◌, ◌-◌, ◌/◌, ◌%◌, ◌==◌, if◌then◌else◌, ltb, Bool, true, false, not, List, [], ◌∷◌, ◌++◌,
  length, take, drop, Option, none, some,
}
use multicast_bridge.Common.Results.{Result, ok, err}
use multicast_bridge.Data.Header.{
  EncapsulatedHeader, HeaderError, header_size, major_version, deserialize_header,
}
use multicast_bridge.Data.Session.Worker.Info.{is_fec_of, group_num_of, index_of}
use multicast_bridge.Data.Session.Worker.Frame.{unwrap}
use multicast_bridge.Fec.Manager.{FecManager, Added, add_packet}
use multicast_bridge.Logger.Receiver.{ReceiverStats, add_packet_stats}
use multicast_bridge.Receiver.Stats.{StreamStats, update}

-- What the loop works on. `analyzed` are the numbers passed to the analyzer, if there is one;
-- `reconnect` is the channel `triggerReconnect` of one place; `sent` is what went to the group.
pub record Forward (A : Type 0) : Type 0 where
  pub stats : StreamStats
  pub figures : ReceiverStats
  pub analyzed : Option (List ℕ)
  pub fec : Option FecManager
  pub control_open : Bool
  pub reconnect : Bool
  pub aead : Option A
  pub sent : List (List ℕ)

module _ {A : Type 0} (encryption : Bool) (decrypt : A → List ℕ → Option (List ℕ)) where
  -- The connection is taken and closed, and the reconnection is asked for.
  abbrev pub refuse : Forward A → Forward A
  refuse f = if f.control_open then record f { control_open = false; reconnect = true } else f

  -- The overhead of the encryption is taken off.
  abbrev pub raw_payload_len : Option A → ℕ → ℕ
  raw_payload_len none size = size
  raw_payload_len (some a) size = if encryption then size - 28 else size

  abbrev pub recorded : ℕ → Option (List ℕ) → Option (List ℕ)
  recorded seq none = none
  recorded seq (some ns) = some (ns ++ (seq ∷ []))

  abbrev pub with_stats :
      ℕ → EncapsulatedHeader → Forward A → Option StreamStats → Option (Forward A)
  with_stats now h f none = none
  with_stats now h f (some stats) = some (record f {
    stats = stats;
    figures =
        add_packet_stats now h.seq_num h.timestamp (raw_payload_len f.aead h.payload_len) f.figures;
    analyzed = recorded h.seq_num f.analyzed;
  })

  -- The statistics, for data packets only; `none` is a run-time panic.
  unfoldable pub count_packet : ℕ → EncapsulatedHeader → Forward A → Option (Forward A)
  count_packet now h f =
      if is_fec_of h.fec_info
      then some f
      else with_stats now h f (update f.stats h.seq_num h.timestamp now)

  abbrev pub kept : Forward A → FecManager × Added → Forward A × List (List ℕ)
  kept f (m, added) = (record f { fec = some m }, added.released)

  abbrev pub release :
      ℕ → List ℕ → EncapsulatedHeader → Forward A → Option FecManager → Forward A × List (List ℕ)
  release now buf h f none = if is_fec_of h.fec_info then (f, []) else (f, buf ∷ [])
  release now buf h f (some m) =
      let is_fec = is_fec_of h.fec_info in
      let input = if is_fec then drop header_size buf else buf in
      kept f (add_packet m input is_fec (group_num_of h.fec_info) (index_of h.fec_info) now)

  abbrev pub decrypted : Option A → List ℕ → Option (List ℕ)
  decrypted none payload = some payload
  decrypted (some a) payload = if encryption then decrypt a payload else some payload

  -- An empty payload is not sent.
  abbrev pub send_out : Forward A → Option (List ℕ) → Forward A
  send_out f none = f
  send_out f (some []) = f
  send_out f (some (b ∷ bytes)) = record f { sent = f.sent ++ ((b ∷ bytes) ∷ []) }

  abbrev pub opened : Option A → Option (List ℕ) → Option (List ℕ)
  opened aead none = none
  opened aead (some payload) = decrypted aead payload

  unfoldable pub forward_each : List (List ℕ) → Forward A → Forward A
  forward_each [] f = f
  forward_each (pkt ∷ pkts) f = forward_each pkts (send_out f (opened f.aead (unwrap pkt)))

  abbrev pub forward_released : Forward A × List (List ℕ) → Forward A
  forward_released (f, pkts) = forward_each pkts f

  abbrev pub after_count : ℕ → List ℕ → EncapsulatedHeader → Option (Forward A) → Option (Forward A)
  after_count now buf h none = none
  after_count now buf h (some f) = some (forward_released (release now buf h f f.fec))

  -- A minor version that differs is only logged.
  abbrev pub with_header :
      ℕ → List ℕ → Forward A → Result HeaderError EncapsulatedHeader → Option (Forward A)
  with_header now buf f (err e) = some f
  with_header now buf f (ok h) =
      if not (h.version / 16 == major_version)
      then some (refuse f)
      else after_count now buf h (count_packet now h f)

  -- One datagram; `none` is a run-time panic.
  unfoldable pub on_datagram : ℕ → List ℕ → Forward A → Option (Forward A)
  on_datagram now buf f =
      if ltb (length buf) header_size
      then some f
      else with_header now buf f (deserialize_header (take header_size buf))
