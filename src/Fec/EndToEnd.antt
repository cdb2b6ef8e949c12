-- ===== src/Fec/EndToEnd.antt =====
-- internal/fec/fec.go: from the packets of a group at the sender to those that the receiver
-- releases, over a network that loses and reorders.
use mathlib.Core.List.{Perm}
use multicast_bridge.Common.{
  ℕ, zero, suc, ◌+◌, ◌-◌, ◌≤◌, ◌<◌, ◌≡◌, refl, sym, ap, ◌∙◌, leb, List, [], ◌∷◌, ◌++◌, length, take,
  All, none, some, arith, map, length-map, length-append, take-append, get_elem?,
}
use mathlib.Core.Path.{subst}
use multicast_bridge.Common.Results.{ok}
use multicast_bridge.Common.Assoc.{lookup}
use multicast_bridge.Fec.Codec.{Codec, IsCodec, AllOfLength}
use multicast_bridge.Fec.Encode.{pad, encode_fec_with_encoder}
use multicast_bridge.Fec.Parity.{
  max_len, Parity, length-le-max_len_from, AllOfLength-append, AllOfLength-map-pad,
  encode_fec-max_len,
}
use multicast_bridge.Fec.Manager.{FecManager}
use multicast_bridge.Fec.Manager.Word.{IsShard, pad_full}
use multicast_bridge.Fec.Manager.Receive.{IsWord, Arrival, IsOf}
use multicast_bridge.Fec.Manager.Recovery.{deliver, Distinct, Ready}
use multicast_bridge.Fec.Manager.AnyK.{deliver_lem}

-- The packet at its place among those that the sender sent, with the flag that it was sent with.
pub record IsSent (k : ℕ) (sent : List (List ℕ)) (a : Arrival) : Type 0 where
  pub place : get_elem? sent a.index ≡ some a.packet
  pub flag : a.is_fec ≡ leb k a.index

module _ (c : Codec) (k n : ℕ) (ps red : List (List ℕ)) (size : length ps ≡ k) (some_data : 1 ≤ k)
    (room : k ≤ n) (p : Parity c k n (max_len ps) ps red) (some_bytes : 1 ≤ max_len ps) where
  encoded-IsWord :
      IsWord c k n (max_len ps) (map (pad (max_len ps)) ps) (map (pad (max_len ps)) ps ++ red)
  encoded-IsWord = record {
    some_data = some_data;
    some_bytes = some_bytes;
    data_le = room;
    count = omega (
      arith,
      length-append (map (pad (max_len ps)) ps) red,
      length-map ps (pad (max_len ps)),
      p.count,
      size,
    );
    even =
        AllOfLength-append (max_len ps) (map (pad (max_len ps)) ps) red
          (AllOfLength-map-pad (max_len ps) ps) p.even;
    front =
        ap (λ i. take i (map (pad (max_len ps)) ps ++ red))
          (sym (length-map ps (pad (max_len ps)) ∙ size))
        ∙ take-append (map (pad (max_len ps)) ps) red;
    rebuild = p.rebuild;
  }

-- What a packet of the sent list is in the encoded word.
record Placed (l : ℕ) (count : ℕ) (word : List (List ℕ)) (i : ℕ) (q : List ℕ) : Type 0 where
  shard : List ℕ
  place : get_elem? word i ≡ some shard
  matches : IsShard l q shard
  full : count ≤ i → length q ≡ l

parity-Placed :
    (l : ℕ) (red : List (List ℕ)) (i : ℕ) (q : List ℕ)
    → 1 ≤ l
    → AllOfLength l red
    → get_elem? red i ≡ some q
    → Placed l 0 red i q
parity-Placed l [] i q pos even e = cc
parity-Placed l (r ∷ red) zero q pos even e =
    let same : r ≡ q = cc in
    let long : length q ≡ l = ap length (sym same) ∙ even.0 in
    record {
      shard = q;
      place = e;
      matches = record { padded = pad_full l q long; fits = omega arith; some_bytes = omega arith };
      full = λ _. long;
    }
parity-Placed l (r ∷ red) (suc i) q pos even e =
    let rest = parity-Placed l red i q pos even.1 e in
    record {
      shard = rest.shard;
      place = rest.place;
      matches = rest.matches;
      full = λ _. rest.full (omega arith);
    }

placed :
    (l : ℕ) (ps red : List (List ℕ)) (i : ℕ) (q : List ℕ)
    → 1 ≤ l
    → AllOfLength l red
    → All (λ p. length p ≤ l) ps
    → All (λ p. 1 ≤ length p) ps
    → get_elem? (ps ++ red) i ≡ some q
    → Placed l (length ps) (map (pad l) ps ++ red) i q
placed l [] red i q pos even short full e = parity-Placed l red i q pos even e
placed l (x ∷ ps) red zero q pos even short full e =
    let same : x ≡ q = cc in
    record {
      shard = pad l q;
      place = ap (λ y. some (pad l y)) same;
      matches = record {
        padded = refl;
        fits = omega (arith, short.0, ap length same);
        some_bytes = omega (arith, full.0, ap length same);
      };
      full = λ h. absurd (omega arith);
    }
placed l (x ∷ ps) red (suc i) q pos even short full e =
    let rest = placed l ps red i q pos even short.1 full.1 e in
    record {
      shard = rest.shard;
      place = rest.place;
      matches = rest.matches;
      full = λ h. rest.full (omega arith);
    }

get_elem?-lt : (xs : List (List ℕ)) (i : ℕ) (x : List ℕ) → get_elem? xs i ≡ some x → i < length xs
get_elem?-lt [] i x e = cc
get_elem?-lt (y ∷ xs) zero x e = omega arith
get_elem?-lt (y ∷ xs) (suc i) x e = omega (arith, get_elem?-lt xs i x e)

max_len-pos : (ps : List (List ℕ)) → 1 ≤ length ps → All (λ p. 1 ≤ length p) ps → 1 ≤ max_len ps
max_len-pos [] h full = absurd (omega arith)
max_len-pos (p ∷ ps) h full = omega (arith, (length-le-max_len_from 0 (p ∷ ps)).0, full.0)

IsSent-IsOf :
    (c : Codec) (k n : ℕ) (ps red : List (List ℕ))
    → length ps ≡ k
    → k ≤ n
    → Parity c k n (max_len ps) ps red
    → 1 ≤ max_len ps
    → All (λ p. 1 ≤ length p) ps
    → (arrivals : List Arrival) → All (IsSent k (ps ++ red)) arrivals
    → All (IsOf k n (max_len ps) (map (pad (max_len ps)) ps ++ red)) arrivals
IsSent-IsOf c k n ps red size room p pos full [] s = tt
IsSent-IsOf c k n ps red size room p pos full (a ∷ arrivals) s =
    let at =
      placed (max_len ps) ps red a.index a.packet pos p.even (length-le-max_len_from 0 ps) full
        s.0.place in
    (
      record {
        shard = at.shard;
        place = at.place;
        matches = at.matches;
        inside = omega (
          arith,
          get_elem?-lt (ps ++ red) a.index a.packet s.0.place,
          length-append ps red,
          p.count,
          size,
        );
        kind = s.0.flag;
        full = λ h. at.full (omega (arith, size));
      },
      IsSent-IsOf c k n ps red size room p pos full arrivals s.1,
    )

-- Let the codec do as its documentation says. The sender encodes `k` packets, none empty, `n` at
-- least `k`. Of these and their parity packets the receiver gets any `k` different ones, in any order,
-- at an enabled manager of the same `k` and `n` that has nothing of the group, none later than the
-- timeout after the first. Then it has released exactly the `k` data packets, each once, up to zeros
-- at the end and in some order, and the group is deleted.
pub any_k_recover :
    (c : Codec) (k n group_num : ℕ) (ps red : List (List ℕ)) (m : FecManager) (a : Arrival)
    (arrivals : List Arrival)
    → IsCodec c k (n - k)
    → 1 ≤ k
    → k ≤ n
    → length ps ≡ k
    → All (λ p. 1 ≤ length p) ps
    → encode_fec_with_encoder (some c) k n ps ≡ ok red
    → Ready c k n m
    → lookup group_num m.groups ≡ none
    → All (IsSent k (ps ++ red)) (a ∷ arrivals)
    → Distinct (a ∷ arrivals)
    → All (λ b. b.time ≤ a.time + m.group_timeout) arrivals
    → length (a ∷ arrivals) ≡ k
    → Perm
        (map (pad (max_len ps)) (deliver m group_num (a ∷ arrivals)).1)
        (map (pad (max_len ps)) ps)
      × (lookup group_num (deliver m group_num (a ∷ arrivals)).0.groups ≡ none)
any_k_recover c k n group_num ps red m a arrivals codec pos_k room size full enc r e s d t enough =
    deliver_lem c k n (max_len ps) (map (pad (max_len ps)) ps) (map (pad (max_len ps)) ps ++ red)
      (encoded-IsWord c k n ps red size pos_k room parity pos) group_num m a arrivals r e
      (IsSent-IsOf c k n ps red size room parity pos full (a ∷ arrivals) s) d t enough
  where
    pos : 1 ≤ max_len ps
    pos = max_len-pos ps (omega arith) full

    parity : Parity c k n (max_len ps) ps red
    parity =
        let (zs, q) = encode_fec-max_len c k n codec ps size room pos in
        subst (Parity c k n (max_len ps) ps) (cc (enc, q.result)) q
