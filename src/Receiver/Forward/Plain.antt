-- ===== src/Receiver/Forward/Plain.antt =====
-- cmd/recv.go: a data packet without error correction, from the sender's frame to the group.
use mathlib.Core.List.{append-nil}
use multicast_bridge.Common.{
  ℕ, ◌^◌, ◌<◌, ◌≡◌, refl, sym, ap, ◌∙◌, if◌then◌else◌, ltb, Bool, true, false, not, List, [], ◌∷◌,
  ◌++◌, length, take, Option, none, some, arith, length-append, take-append,
}
use multicast_bridge.Common.Int.{ℤ, IsI64}
use multicast_bridge.Common.Results.{ok}
use multicast_bridge.Data.Header.{EncapsulatedHeader, serialize, deserialize_header}
use multicast_bridge.Data.Header.RoundTrip.{length-serialize, deserialize_header-serialize}
use multicast_bridge.Data.Session.Worker.{frame}
use multicast_bridge.Data.Session.Worker.Info.{is_fec_of, group_num_of, index_of}
use multicast_bridge.Data.Session.Worker.Frame.{
  header_for, header_for-IsHeader, unwrap, unwrap-frame,
}
use multicast_bridge.Fec.Manager.{FecManager, add_packet}
use multicast_bridge.Receiver.Stats.{StreamStats, update}
use multicast_bridge.Receiver.Forward.{
  Forward, with_header, with_stats, count_packet, kept, after_count, forward_released, release,
  opened, decrypted, send_out, forward_each, on_datagram,
}

deserialize_header-take :
    (seq : ℕ) (stamp : ℤ) (info : ℕ) (payload : List ℕ)
    → seq < 2 ^ 32
    → IsI64 stamp
    → info < 2 ^ 16
    → deserialize_header (take 17 (frame seq stamp info payload))
      ≡ ok (header_for seq stamp info payload)
unfolding frame
deserialize_header-take seq stamp info payload s t f =
    let h = header_for seq stamp info payload in
    let front : take 17 (serialize h ++ payload) ≡ serialize h =
      ap (λ n. take n (serialize h ++ payload)) (sym (length-serialize h))
      ∙ take-append (serialize h) payload in
    ap deserialize_header (front ∙ sym (append-nil (serialize h)))
    ∙ deserialize_header-serialize h [] (header_for-IsHeader seq stamp info payload s t f)

length-frame :
    (seq : ℕ) (stamp : ℤ) (info : ℕ) (payload : List ℕ)
    → ltb (length (frame seq stamp info payload)) 17 ≡ false
unfolding frame
length-frame seq stamp info payload =
    let h = header_for seq stamp info payload in
    ground (arith, length-append (serialize h) payload, length-serialize h)

-- There is no manager, or it is disabled.
abbrev pub is_off : Option FecManager → Bool
is_off none = true
is_off (some m) = not m.enabled

not_injective : (b : Bool) → not b ≡ true → b ≡ false
not_injective true e = cc
not_injective false e = refl

add_packet_off :
    (m : FecManager) (pkt : List ℕ) (group_num index now : ℕ)
    → m.enabled ≡ false
    → add_packet m pkt false group_num index now
      ≡ (m, record { released = pkt ∷ []; failure = none })
unfolding add_packet
add_packet_off m pkt group_num index now e = ground (arith, e)

module _ {A : Type 0} (encryption : Bool) (decrypt : A → List ℕ → Option (List ℕ)) where
  on_datagram_counts :
      (f : Forward A) (now seq : ℕ) (stamp : ℤ) (info : ℕ) (payload : List ℕ)
      → seq < 2 ^ 32
      → IsI64 stamp
      → info < 2 ^ 16
      → on_datagram encryption decrypt now (frame seq stamp info payload) f
        ≡ after_count encryption decrypt now
            (frame seq stamp info payload)
            (header_for seq stamp info payload)
            (count_packet encryption decrypt now (header_for seq stamp info payload) f)
  unfolding on_datagram
  on_datagram_counts f now seq stamp info payload s t u =
      let buf = frame seq stamp info payload in
      ap
        (λ b.
          if b
          then some f
          else with_header encryption decrypt now buf f (deserialize_header (take 17 buf)))
        (length-frame seq stamp info payload)
      ∙ ap (with_header encryption decrypt now buf f)
          (deserialize_header-take seq stamp info payload s t u)

  -- The loop after the statistics have become `stats`.
  abbrev counted : Forward A → ℕ → ℕ → ℤ → ℕ → List ℕ → StreamStats → Option (Forward A)
  counted f now seq stamp info payload stats =
      with_stats encryption decrypt now (header_for seq stamp info payload) f (some stats)

  count_packet_data :
      (f : Forward A) (now seq : ℕ) (stamp : ℤ) (info : ℕ) (payload : List ℕ) (stats : StreamStats)
      → is_fec_of info ≡ false
      → update f.stats seq stamp now ≡ some stats
      → count_packet encryption decrypt now (header_for seq stamp info payload) f
        ≡ counted f now seq stamp info payload stats
  unfolding count_packet
  count_packet_data f now seq stamp info payload stats e g = rw (e, g) refl

  same_sent :
      (f : Forward A) (m : FecManager) (o : Option (List ℕ))
      → (send_out encryption decrypt (record f { fec = some m }) o).sent
        ≡ (send_out encryption decrypt f o).sent
  same_sent f m none = refl
  same_sent f m (some []) = refl
  same_sent f m (some (b ∷ bytes)) = refl

  -- Without error correction, a data packet is passed on alone.
  release_off :
      (f : Forward A) (now : ℕ) (buf : List ℕ) (h : EncapsulatedHeader) (m : Option FecManager)
      → is_fec_of h.fec_info ≡ false
      → is_off m ≡ true
      → (forward_released encryption decrypt (release encryption decrypt now buf h f m)).sent
        ≡ (send_out encryption decrypt f (opened encryption decrypt f.aead (unwrap buf))).sent
  unfolding forward_each
  release_off f now buf h none e off = rw e refl
  release_off f now buf h (some m) e off = rw e (
      ap (λ r. (forward_released encryption decrypt (kept encryption decrypt f r)).sent)
        (add_packet_off m buf (group_num_of h.fec_info) (index_of h.fec_info) now
          (not_injective m.enabled off))
      ∙ same_sent f m (opened encryption decrypt f.aead (unwrap buf)))

  forward_data :
      (f : Forward A) (now seq : ℕ) (stamp : ℤ) (info : ℕ) (payload : List ℕ) (b : ℕ)
      (bytes : List ℕ)
      → is_fec_of info ≡ false
      → is_off f.fec ≡ true
      → unwrap (frame seq stamp info payload) ≡ some payload
      → decrypted encryption decrypt f.aead payload ≡ some (b ∷ bytes)
      → (forward_released encryption decrypt (
          release encryption decrypt now
            (frame seq stamp info payload)
            (header_for seq stamp info payload)
            f
            f.fec)).sent
        ≡ f.sent ++ ((b ∷ bytes) ∷ [])
  unfolding forward_each
  forward_data f now seq stamp info payload b bytes e no_fec u d =
      release_off f now (frame seq stamp info payload) (header_for seq stamp info payload) f.fec e
        no_fec
      ∙ ap (λ o. (send_out encryption decrypt f (opened encryption decrypt f.aead o)).sent) u
      ∙ ap (λ o. (send_out encryption decrypt f o).sent) d

  -- At a receiver without error correction (it has no FEC manager yet, before the first registration, or
  -- a disabled one, afterwards), a data packet as the sender frames it, whose sequence
  -- number the statistics take and whose payload, decrypted if encryption is on, is not empty, is
  -- sent to the group exactly once, as that payload, if the payload is shorter than 2^16 bytes and the
  -- fields of the header fit their types.
  pub on_datagram-frame :
      (f : Forward A) (now seq : ℕ) (stamp : ℤ) (info : ℕ) (payload : List ℕ) (stats : StreamStats)
      (b : ℕ) (bytes : List ℕ)
      → seq < 2 ^ 32
      → IsI64 stamp
      → info < 2 ^ 16
      → length payload < 2 ^ 16
      → is_fec_of info ≡ false
      → is_off f.fec ≡ true
      → update f.stats seq stamp now ≡ some stats
      → decrypted encryption decrypt f.aead payload ≡ some (b ∷ bytes)
      → (f' : Forward A) × (on_datagram encryption decrypt now (frame seq stamp info payload) f
          ≡ some f')
        × (f'.sent ≡ f.sent ++ ((b ∷ bytes) ∷ []))
  on_datagram-frame f now seq stamp info payload stats b bytes s t u p flag no_fec g d = (
    _,
    on_datagram_counts f now seq stamp info payload s t u
        ∙ ap
            (after_count encryption decrypt now (frame seq stamp info payload)
              (header_for seq stamp info payload))
            (count_packet_data f now seq stamp info payload stats flag g),
    forward_data _ now seq stamp info payload b bytes flag no_fec
        (unwrap-frame seq stamp info payload s t u p) d,
  )
