-- ===== src/Fec/Manager.antt =====
-- internal/fec/fec.go: `FECManager`, which buffers the packets of each group at the receiver and
-- rebuilds the missing data packets. A method is one critical section under `m.mu`; the clock that
-- it reads is an argument, in nanoseconds.
pub mod Group
pub mod Slots
pub mod Word
pub mod Receive
pub mod Settle
pub mod Recovery
pub mod AnyK
pub mod Late
use multicast_bridge.Common.{
  ℕ, ◌+◌, ◌-◌, ◌*◌, ◌^◌, ◌≤◌, ◌≡◌, if◌then◌else◌, ltb, leb, Bool, true, false, not, ◌&&◌, ◌||◌,
  List, [], ◌∷◌, ◌++◌, length, take, replicate, get_or, set, Option, none, some,
}
use multicast_bridge.Common.Assoc.{lookup, insert, delete}
use multicast_bridge.Fec.Codec.{Codec}
use multicast_bridge.Fec.Encode.{
  FecError, pad, reconstruct_failed, invalid_index, bad_parity_index, bad_data_index,
}
use Group.{
  GroupState, new_group, buffer, pass_through, all_sent, lost_count, pad_received, collect_unsent,
  mark_sent,
}

pub record FecManager : Type 0 where
  pub groups : List (ℕ × GroupState)
  pub k : ℕ
  pub n : ℕ
  pub enabled : Bool
  pub decoder : Option Codec
  pub group_timeout : ℕ

-- What `AddPacket` returns: the released packets and the error, of which both may be there.
pub record Added : Type 0 where
  pub released : List (List ℕ)
  pub failure : Option FecError

abbrev default_group_timeout : ℕ
default_group_timeout = 2_000_000_000

-- `reedsolomon.New(k, n-k)` is the first argument; `none` is its error.
unfoldable pub new_fec_manager : (ℕ → ℕ → Option Codec) → Bool → ℕ → ℕ → ℕ → FecManager
new_fec_manager new_codec enabled k n group_timeout =
    let timeout = if leb group_timeout 0 then default_group_timeout else group_timeout in
    let decoder = if enabled && (ltb 0 k && ltb k n) then new_codec k (n - k) else none in
    record {
      groups = [];
      k = k;
      n = n;
      enabled = elim decoder [ none ↦ false | some c ↦ true ];
      decoder = decoder;
      group_timeout = timeout;
    }

-- A group that is older than the timeout is deleted first; then a missing one is made.
abbrev fresh_or_old : FecManager → ℕ → ℕ → Option GroupState → FecManager × GroupState
fresh_or_old m group_num now none =
    let g = new_group m.k m.n group_num now in
    (record m { groups = insert group_num g m.groups }, g)
fresh_or_old m group_num now (some g) =
    if ltb m.group_timeout (now - g.created_at)
    then (let g' = new_group m.k m.n group_num now in
        (record m { groups = insert group_num g' (delete group_num m.groups) }, g'))
    else (m, g)

unfoldable pub fetch_group : FecManager → ℕ → ℕ → FecManager × GroupState
fetch_group m group_num now = fresh_or_old m group_num now (lookup group_num m.groups)

-- The group is shared with the map, so a change of it is a change of the map.
abbrev keep_group : FecManager → ℕ → GroupState → FecManager
keep_group m group_num g = record m { groups = insert group_num g m.groups }

-- The end of the method: a group with nothing left to release is deleted at once.
abbrev finish : FecManager → ℕ → GroupState → List (List ℕ) → FecManager × Added
finish m group_num g released = (
  if all_sent g.sent
      then record m { groups = delete group_num m.groups }
      else keep_group m group_num g,
  record { released = released; failure = none },
)

-- The outcome of `m.decoder.Reconstruct(g.Packets)`.
abbrev rebuilt :
    FecManager → ℕ → GroupState → List (List ℕ) → Option (List (List ℕ)) → FecManager × Added
rebuilt m group_num g released none =
    (keep_group m group_num g, record { released = released; failure = some reconstruct_failed })
rebuilt m group_num g released (some shards) =
    let rebuilt_group = record g { packets = shards; sent = mark_sent g.sent } in
    finish m group_num rebuilt_group (released ++ collect_unsent g.sent shards)

abbrev decode : Option Codec → List (List ℕ) → Option (List (List ℕ))
decode none shards = none
decode (some c) shards = c.reconstruct shards

-- From the check whether reconstruction is possible and needed on.
unfoldable pub settle : FecManager → ℕ → GroupState → List (List ℕ) → FecManager × Added
settle m group_num g released =
    if leb g.k g.recv_count && not (all_sent g.sent)
    then (let padded = record g { packets = pad_received g.max_len g.received g.packets } in
        rebuilt m group_num padded released (decode m.decoder padded.packets))
    else finish m group_num g released

-- From the duplicate check on.
unfoldable pub receive : FecManager → GroupState → List ℕ → Bool → ℕ → ℕ → FecManager × Added
receive m g pkt is_fec group_num index =
    if get_or g.received index false
    then (m, record { released = []; failure = none })
    else let (passed, released) = pass_through (buffer g pkt index) pkt is_fec index in
      settle m group_num passed released

unfoldable pub add_packet : FecManager → List ℕ → Bool → ℕ → ℕ → ℕ → FecManager × Added
add_packet m pkt is_fec group_num index now =
    if not m.enabled
    then (m, record { released = pkt ∷ []; failure = none })
    else let (m', g) = fetch_group m group_num now in
      if leb m'.n index
      then (m', record { released = []; failure = some invalid_index })
      else if is_fec && ltb index m'.k
      then (m', record { released = []; failure = some bad_parity_index })
      else if not is_fec && leb m'.k index
      then (m', record { released = []; failure = some bad_data_index })
      else receive m' g pkt is_fec group_num index

-- The groups that `CleanUpTimeouts` leaves, and the losses that it reports: group and count.
unfoldable pub clean_groups : ℕ → ℕ → List (ℕ × GroupState) → List (ℕ × GroupState) × List (ℕ × ℕ)
clean_groups timeout now [] = ([], [])
clean_groups timeout now ((num, g) ∷ rest) =
    let (kept, warned) = clean_groups timeout now rest in
    if ltb timeout (now - g.created_at)
    then (kept, if ltb 0 (lost_count g.sent) then (num, lost_count g.sent) ∷ warned else warned)
    else ((num, g) ∷ kept, warned)

unfoldable pub clean_up_timeouts : FecManager → ℕ → FecManager × List (ℕ × ℕ)
clean_up_timeouts m now =
    if not m.enabled
    then (m, [])
    else let (kept, warned) = clean_groups m.group_timeout now m.groups in
      (record m { groups = kept }, warned)
