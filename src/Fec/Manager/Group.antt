-- ===== src/Fec/Manager/Group.antt =====
-- internal/fec/fec.go: `GroupState` and the loops of `AddPacket` over its arrays.
use multicast_bridge.Common.{
  ℕ, suc, ◌+◌, if◌then◌else◌, ltb, Bool, true, false, not, ◌&&◌, List, [], ◌∷◌, length, replicate,
  set,
}
use multicast_bridge.Fec.Encode.{pad}

pub record GroupState : Type 0 where
  pub group_num : ℕ
  pub k : ℕ
  pub n : ℕ
  pub packets : List (List ℕ)
  pub received : List Bool
  pub sent : List Bool
  pub recv_count : ℕ
  pub max_len : ℕ
  pub created_at : ℕ

-- A nil packet is the empty list.
unfoldable pub new_group : ℕ → ℕ → ℕ → ℕ → GroupState
new_group k n group_num now = record {
  group_num = group_num;
  k = k;
  n = n;
  packets = replicate n [];
  received = replicate n false;
  sent = replicate k false;
  recv_count = 0;
  max_len = 0;
  created_at = now;
}

unfoldable pub buffer : GroupState → List ℕ → ℕ → GroupState
buffer g pkt index = record g {
  packets = set g.packets index pkt;
  received = set g.received index true;
  recv_count = g.recv_count + 1;
  max_len = if ltb g.max_len (length pkt) then length pkt else g.max_len;
}

-- A data packet goes out at once.
unfoldable pub pass_through : GroupState → List ℕ → Bool → ℕ → GroupState × List (List ℕ)
pass_through g pkt is_fec index =
    if not is_fec && ltb index g.k
    then (record g { sent = set g.sent index true }, pkt ∷ [])
    else (g, [])

-- `sent` has the length K, so a loop over `i < g.K` is a loop over it.
unfoldable pub all_sent : List Bool → Bool
all_sent [] = true
all_sent (s ∷ ss) = s && all_sent ss

unfoldable pub lost_count : List Bool → ℕ
lost_count [] = 0
lost_count (true ∷ ss) = lost_count ss
lost_count (false ∷ ss) = suc (lost_count ss)

unfoldable pub pad_received : ℕ → List Bool → List (List ℕ) → List (List ℕ)
pad_received max_len [] ps = ps
pad_received max_len (r ∷ rs) [] = []
pad_received max_len (r ∷ rs) (p ∷ ps) =
    (if r && ltb (length p) max_len then pad max_len p else p) ∷ pad_received max_len rs ps

-- The packets at the data places that are not sent.
unfoldable pub collect_unsent : List Bool → List (List ℕ) → List (List ℕ)
collect_unsent [] shards = []
collect_unsent (s ∷ ss) [] = []
collect_unsent (true ∷ ss) (p ∷ ps) = collect_unsent ss ps
collect_unsent (false ∷ ss) (p ∷ ps) = p ∷ collect_unsent ss ps

unfoldable pub mark_sent : List Bool → List Bool
mark_sent [] = []
mark_sent (s ∷ ss) = true ∷ mark_sent ss
