-- ===== src/Data/Session/Worker/Frame.antt =====
-- internal/data/session.go and cmd/recv.go: the frame around a payload, at both ends.
use mathlib.Core.List.{append_assoc, append-nil}
use multicast_bridge.Common.{
  ℕ, ◌-◌, ◌%◌, ◌^◌, ◌≤◌, ◌<◌, ◌≡◌, sym, ap, ◌∙◌, if◌then◌else◌, ltb, List, [], ◌++◌, length, take,
  drop, Option, none, some, arith, length-append, take-append, drop-append,
}
use multicast_bridge.Common.Int.{ℤ, IsI64}
use multicast_bridge.Common.Bytes.{copy_at_front}
use multicast_bridge.Common.Results.{Result, ok, err}
use multicast_bridge.Data.Header.{
  EncapsulatedHeader, IsHeader, HeaderError, header_size, current_header_version, serialize,
  deserialize_header,
}
use multicast_bridge.Data.Header.RoundTrip.{deserialize_header-serialize, length-serialize}
use multicast_bridge.Data.Session.Worker.{frame}
use multicast_bridge.Fec.Encode.{pad}

-- The receiver's loop over the released packets, up to the decryption; a packet that it skips is
-- `none`.
abbrev unwrapped : List ℕ → Result HeaderError EncapsulatedHeader → Option (List ℕ)
unwrapped payload (err e) = none
unwrapped payload (ok h) =
    if ltb (length payload) h.payload_len then none else some (take h.payload_len payload)

unfoldable pub unwrap : List ℕ → Option (List ℕ)
unwrap pkt =
    if ltb (length pkt) header_size
    then none
    else unwrapped (drop header_size pkt) (deserialize_header (take header_size pkt))

-- The header that `frame` puts before the payload.
abbrev pub header_for : ℕ → ℤ → ℕ → List ℕ → EncapsulatedHeader
header_for seq stamp info payload = record {
  version = current_header_version;
  seq_num = seq;
  timestamp = stamp;
  payload_len = length payload % 2 ^ 16;
  fec_info = info;
}

pub header_for-IsHeader :
    (seq : ℕ) (stamp : ℤ) (info : ℕ) (payload : List ℕ)
    → seq < 2 ^ 32
    → IsI64 stamp
    → info < 2 ^ 16
    → IsHeader (header_for seq stamp info payload)
header_for-IsHeader seq stamp info payload s t f = record {
  version_fits = omega arith;
  seq_num_fits = s;
  timestamp_fits = t;
  payload_len_fits = omega arith;
  fec_info_fits = f;
}

pub deserialize_header-frame :
    (seq : ℕ) (stamp : ℤ) (info : ℕ) (payload : List ℕ)
    → seq < 2 ^ 32
    → IsI64 stamp
    → info < 2 ^ 16
    → deserialize_header (frame seq stamp info payload) ≡ ok (header_for seq stamp info payload)
unfolding frame
deserialize_header-frame seq stamp info payload s t f =
    deserialize_header-serialize (header_for seq stamp info payload) payload
      (header_for-IsHeader seq stamp info payload s t f)

unwrap_framed :
    (h : EncapsulatedHeader) (payload rest : List ℕ)
    → IsHeader h
    → h.payload_len ≡ length payload
    → unwrap (serialize h ++ (payload ++ rest)) ≡ some payload
unfolding unwrap
unwrap_framed h payload rest v e =
    rw (front, back, whole)
      (ground (
        arith,
        length-serialize h,
        length-append (serialize h) (payload ++ rest),
        length-append payload rest,
        e,
        trimmed,
      ))
  where
    trimmed : take h.payload_len (payload ++ rest) ≡ payload
    trimmed = ap (λ n. take n (payload ++ rest)) e ∙ take-append payload rest

    front : take 17 (serialize h ++ (payload ++ rest)) ≡ serialize h
    front =
        ap (λ n. take n (serialize h ++ (payload ++ rest))) (sym (length-serialize h))
        ∙ take-append (serialize h) (payload ++ rest)

    back : drop 17 (serialize h ++ (payload ++ rest)) ≡ payload ++ rest
    back =
        ap (λ n. drop n (serialize h ++ (payload ++ rest))) (sym (length-serialize h))
        ∙ drop-append (serialize h) (payload ++ rest)

    whole : deserialize_header (serialize h) ≡ ok h
    whole =
        ap deserialize_header (sym (append-nil (serialize h))) ∙ deserialize_header-serialize h [] v

-- The receiver takes the payload out of a framed packet, and also out of the longer one that the
-- redundancy code makes of it with zeros at the end, if the payload is shorter than 2^16 bytes and
-- the header's fields fit their types.
pub unwrap-pad :
    (seq : ℕ) (stamp : ℤ) (info : ℕ) (payload : List ℕ) (l : ℕ)
    → seq < 2 ^ 32
    → IsI64 stamp
    → info < 2 ^ 16
    → length payload < 2 ^ 16
    → length (frame seq stamp info payload) ≤ l
    → unwrap (pad l (frame seq stamp info payload)) ≡ some payload
unfolding frame
unwrap-pad seq stamp info payload l s t f p h =
    ap unwrap (
      copy_at_front (frame seq stamp info payload) l (l - length (frame seq stamp info payload))
        (omega (arith, h))
      ∙ append_assoc (serialize (header_for seq stamp info payload)) payload _)
    ∙ unwrap_framed (header_for seq stamp info payload) payload _
        (header_for-IsHeader seq stamp info payload s t f) (omega arith)

pub unwrap-frame :
    (seq : ℕ) (stamp : ℤ) (info : ℕ) (payload : List ℕ)
    → seq < 2 ^ 32
    → IsI64 stamp
    → info < 2 ^ 16
    → length payload < 2 ^ 16
    → unwrap (frame seq stamp info payload) ≡ some payload
unfolding frame
unwrap-frame seq stamp info payload s t f p =
    ap (λ xs. unwrap (serialize (header_for seq stamp info payload) ++ xs))
      (sym (append-nil payload))
    ∙ unwrap_framed (header_for seq stamp info payload) payload []
        (header_for-IsHeader seq stamp info payload s t f) (omega arith)
