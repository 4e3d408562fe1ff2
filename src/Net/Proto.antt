-- ===== src/Net/Proto.antt =====
-- net/proto.c: ARP and ICMP echo replies. `frame` is the memory from the frame on: the code reads
-- behind the `len` bytes of a short ARP frame.
pub mod Bytes
pub mod Header
use scepter.Net.Checksum.{be16, put_be16, net_checksum}
use scepter.Base.{
  ℕ, ◌&&◌, Bool, not, ◌+◌, ltb, ◌==◌, true, ◌-◌, take, drop, ◌!=◌, set, ◌%◌, option_map, none,
  if◌then◌else◌, ◌||◌, Option, [], ◌*◌, List, ◌++◌, false, ◌∷◌, some, ◌/◌, get_or,
}

-- The fields of `net_iface_t` that the protocol layer reads.
pub record Address : Type 0 where
  pub mac : List ℕ
  pub ip : List ℕ

abbrev pub byte_at : List ℕ → ℕ → ℕ
byte_at frame i = get_or frame i 0

abbrev pub word_at : List ℕ → ℕ → ℕ
word_at frame i = be16 (byte_at frame i) (byte_at frame (i + 1))

-- `n` bytes from `frame + i` on, as memcpy and memcmp read them.
abbrev pub slice : List ℕ → (i n : ℕ) → List ℕ
slice frame i n = take n (drop i frame)

-- `memcmp(a, b, n) == 0` for two strings of n bytes.
abbrev pub same_bytes : List ℕ → List ℕ → Bool
same_bytes [] [] = true
same_bytes [] (y ∷ ys) = false
same_bytes (x ∷ xs) [] = false
same_bytes (x ∷ xs) (y ∷ ys) = (x == y) && same_bytes xs ys

-- Bytes written into a buffer from an index on.
abbrev pub write_at : List ℕ → (i : ℕ) → List ℕ → List ℕ
write_at buf i [] = buf
write_at buf i (x ∷ xs) = write_at (set buf i x) (i + 1) xs

-- The reply to an ARP request, `a` being the frame's payload.
abbrev pub arp_reply : Address → (a : List ℕ) → List ℕ
arp_reply iface a =
    slice a 14 6
    ++ iface.mac
    ++ put_be16 0x0806
    ++ put_be16 1
    ++ put_be16 0x0800
    ++ (6 ∷ 4 ∷ [])
    ++ put_be16 2
    ++ iface.mac
    ++ iface.ip
    ++ slice a 14 6
    ++ slice a 20 4

-- `arp_rx`: the frame that is sent where it returns 1.
unfoldable pub arp_rx : Address → (frame : List ℕ) → (len : ℕ) → Option (List ℕ)
arp_rx iface frame len =
    let a = drop 14 frame in
    if ltb len 42
    then none
    else if word_at frame 12 != 0x0806
    then none
    else if word_at a 0 != 1
    then none
    else if word_at a 2 != 0x0800
    then none
    else if (byte_at a 4 != 6) || (byte_at a 5 != 4)
    then none
    else if word_at a 6 != 1
    then none
    else if not (same_bytes (slice a 30 4) iface.ip)
    then none
    else some (arp_reply iface a)

-- The IP header of the reply before the checksum in it is set to 0.
abbrev pub unchecked_header : Address → (packet : List ℕ) → (iplen ihlen : ℕ) → List ℕ
unchecked_header iface packet iplen ihlen =
    let r0 = write_at (take ihlen packet) 0 (69 ∷ []) in
    let r1 = write_at r0 2 (put_be16 (iplen % 65536)) in
    let r2 = write_at (write_at r1 4 (put_be16 0)) 6 (put_be16 0) in
    let r3 = write_at r2 8 (64 ∷ 1 ∷ []) in
    write_at (write_at r3 12 iface.ip) 16 (slice packet 12 4)

abbrev pub reply_header : Address → (packet : List ℕ) → (iplen ihlen : ℕ) → List ℕ
reply_header iface packet iplen ihlen =
    write_at (unchecked_header iface packet iplen ihlen) 10 (put_be16 0)

-- The ICMP message of the reply before its checksum: the one of the request, with another type.
abbrev pub reply_message : (packet : List ℕ) → (iplen ihlen : ℕ) → List ℕ
reply_message packet iplen ihlen = write_at (slice packet ihlen (iplen - ihlen)) 0 (0 ∷ [])

-- `src_mac` is NULL on the loopback interface.
abbrev pub eth_header : Address → (src_mac : Option (List ℕ)) → List ℕ
eth_header iface none = []
eth_header iface (some src_mac) = src_mac ++ iface.mac ++ put_be16 0x0800

-- The two checksums put in their places.
abbrev pub with_checksum : List ℕ → (i : ℕ) → Option ℕ → Option (List ℕ)
with_checksum bytes i none = none
with_checksum bytes i (some c) = some (write_at bytes i (put_be16 c))

abbrev pub checked : List ℕ → (i : ℕ) → Option (List ℕ)
checked bytes i = with_checksum bytes i (net_checksum bytes)

abbrev pub join_reply : (eth : List ℕ) → (header message : Option (List ℕ)) → Option (List ℕ)
join_reply eth none message = none
join_reply eth (some header) message = option_map (λ m. eth ++ header ++ m) message

abbrev pub echo_reply :
    Address → (packet : List ℕ) → (iplen ihlen : ℕ) → (src_mac : Option (List ℕ)) → Option (List ℕ)
echo_reply iface packet iplen ihlen src_mac =
    join_reply (eth_header iface src_mac) (checked (reply_header iface packet iplen ihlen) 10)
      (checked (reply_message packet iplen ihlen) 2)

-- `icmp_rx_ip`: the outer option says whether it returns 1; the inner one is `none` only if the
-- fuel of a checksum ran out.
unfoldable pub icmp_rx_ip :
    Address
    → (packet : List ℕ) → (iplen : ℕ) → (src_mac : Option (List ℕ)) → Option (Option (List ℕ))
icmp_rx_ip iface packet iplen src_mac =
    let ihlen = byte_at packet 0 % 16 * 4 in
    if ltb iplen 20
    then none
    else if byte_at packet 0 / 16 != 4
    then none
    else if ltb ihlen 20 || ltb iplen ihlen
    then none
    else if byte_at packet 9 != 1
    then none
    else if not (same_bytes (slice packet 16 4) iface.ip)
    then none
    else if ltb (iplen - ihlen) 8
    then none
    else if byte_at packet ihlen != 8
    then none
    else some (echo_reply iface packet iplen ihlen src_mac)

unfoldable pub icmp_rx_eth : Address → (frame : List ℕ) → (len : ℕ) → Option (Option (List ℕ))
icmp_rx_eth iface frame len =
    if ltb len 34
    then none
    else if word_at frame 12 != 0x0800
    then none
    else icmp_rx_ip iface (drop 14 frame) (len - 14) (some (slice frame 6 6))

-- `net_proto_rx` with pointers that are not NULL.
unfoldable pub net_proto_rx :
    (loopback : Bool) → Address → (frame : List ℕ) → (len : ℕ) → Option (Option (List ℕ))
net_proto_rx loopback iface frame len =
    if loopback then icmp_rx_ip iface frame len none else elim (arp_rx iface frame len) [
      | some reply ↦ some (some reply)
      | none ↦ icmp_rx_eth iface frame len
    ]
