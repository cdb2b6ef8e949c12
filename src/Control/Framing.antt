-- ===== src/Control/Framing.antt =====
-- internal/control/protocol.go: what `BuildPacket` writes and `ParsePacket` accepts.
use multicast_bridge.Common.{
  ℕ, suc, ◌+◌, ◌-◌, ◌*◌, ◌/◌, ◌%◌, ◌^◌, ◌≤◌, ◌≡◌, sym, ap, ◌∙◌, List, [], ◌∷◌, ◌++◌, length, take,
  drop, All, arith, length-append, take-append, take-append-drop, length-take,
}
use mathlib.Core.Path.{subst}
use multicast_bridge.Common.Bytes.{
  put_uint, get_uint, copy_at-make, copy_at-nil, two_bytes, make, IsByte,
}
use multicast_bridge.Common.Results.{ok}
use multicast_bridge.Control.{Packet, parse_packet, build_packet}

abbrev framed : ℕ → List ℕ → List ℕ
framed t p = t ∷ (put_uint 2 (length p % 2 ^ 16) ++ p)

three-add : (n : ℕ) → 3 + n ≡ suc (suc (suc n))
three-add n = omega arith

-- `BuildPacket` writes the type, the length in two bytes, and the payload.
pub build_packet_lem : (t : ℕ) (p : List ℕ) → build_packet t p ≡ framed t p
unfolding build_packet
build_packet_lem t p = rw (three-add (length p), copy_at-nil (make (length p)), copy_at-make p)

pub parse_packet_ok :
    (t hi lo : ℕ) (body : List ℕ)
    → 1 ≤ t
    → t ≤ 8
    → length body + 3 ≤ 1024
    → hi * 256 + lo ≤ length body
    → parse_packet (t ∷ hi ∷ lo ∷ body)
      ≡ ok (record { kind = t; payload = take (hi * 256 + lo) body })
unfolding parse_packet
parse_packet_ok t hi lo body h1 h8 hlen hbody = rw e (ground arith)
  where
    e : (3 + get_uint (hi ∷ lo ∷ [])) % 2 ^ 16 - 3 ≡ hi * 256 + lo
    e = omega arith

-- What `ParsePacket` has checked when it accepts.
parse_packet_guards :
    (t hi lo : ℕ) (body : List ℕ) (pkt : Packet)
    → parse_packet (t ∷ hi ∷ lo ∷ body) ≡ ok pkt
    → (1 ≤ t) × (t ≤ 8) × (length body + 3 ≤ 1024) × (hi * 256 + lo ≤ length body)
unfolding parse_packet
parse_packet_guards t hi lo body pkt e = ground arith

-- A packet that was built is parsed back from its bytes, and what follows them is ignored, as
-- long as the type is known and the whole is at most 1024 bytes.
pub parse_packet-build_packet :
    (t : ℕ) (p rest : List ℕ)
    → 1 ≤ t
    → t ≤ 8
    → length p + length rest + 3 ≤ 1024
    → parse_packet (build_packet t p ++ rest) ≡ ok (record { kind = t; payload = p })
parse_packet-build_packet t p rest h1 h8 hlen = rw (build_packet_lem t p) (
    parse_packet_ok t (n / 256 % 256) (n % 256) (p ++ rest) h1 h8
      (omega (arith, length-append p rest)) (omega (arith, length-append p rest))
    ∙ ap (λ xs. ok (record { kind = t; payload = xs }))
        (ap (λ k. take k (p ++ rest)) size ∙ take-append p rest))
  where
    n : ℕ
    n = length p % 2 ^ 16

    size : n / 256 % 256 * 256 + n % 256 ≡ length p
    size = omega arith

split_packet :
    (t hi lo : ℕ) (body : List ℕ)
    → IsByte hi
    → IsByte lo
    → hi * 256 + lo ≤ length body
    → t ∷ hi ∷ lo ∷ body ≡ build_packet t (take (hi * 256 + lo) body) ++ drop (hi * 256 + lo) body
split_packet t hi lo body hh hl hbody = rw (build_packet_lem t front) (
    sym (
      ap (λ xs. t ∷ (xs ++ (front ++ back))) (two_bytes hi lo (length front % 2 ^ 16) hh hl size)
      ∙ ap (λ xs. t ∷ hi ∷ lo ∷ xs) (take-append-drop (hi * 256 + lo) body)))
  where
    front : List ℕ
    front = take (hi * 256 + lo) body

    back : List ℕ
    back = drop (hi * 256 + lo) body

    size : length (take (hi * 256 + lo) body) % 2 ^ 16 ≡ hi * 256 + lo
    size = omega (arith, length-take (hi * 256 + lo) body)

abbrev pub Accepted : List ℕ → Packet → Type 0
Accepted bytes pkt =
    (rest : List ℕ) × (bytes ≡ build_packet pkt.kind pkt.payload ++ rest)
    × (1 ≤ pkt.kind)
    × (pkt.kind ≤ 8)
    × (length bytes ≤ 1024)

-- Conversely, whatever `ParsePacket` accepts is a packet of a known type as `BuildPacket` writes
-- it, at most 1024 bytes long with what follows it.
pub parse_packet_inv :
    (bytes : List ℕ) (pkt : Packet)
    → All IsByte bytes
    → parse_packet bytes ≡ ok pkt
    → Accepted bytes pkt
parse_packet_inv (t ∷ hi ∷ lo ∷ body) pkt v e =
    let (h1, h8, hlen, hbody) = parse_packet_guards t hi lo body pkt e in
    subst (Accepted (t ∷ hi ∷ lo ∷ body)) (cc (e, parse_packet_ok t hi lo body h1 h8 hlen hbody)) (
      drop (hi * 256 + lo) body,
      split_packet t hi lo body v.1.0 v.1.1.0 hbody,
      h1,
      h8,
      omega arith,
    )
parse_packet_inv [] pkt v e = absurd (unfold parse_packet in ground arith)
parse_packet_inv (t ∷ []) pkt v e = absurd (unfold parse_packet in ground arith)
parse_packet_inv (t ∷ hi ∷ []) pkt v e = absurd (unfold parse_packet in ground arith)
