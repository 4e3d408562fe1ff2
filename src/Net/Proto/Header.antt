-- ===== src/Net/Proto/Header.antt =====
-- The headers of the replies that net/proto.c sends.
use scepter.Net.Proto.Bytes.{
  AllBytes-write_at, length-write_at, checked-Valid, AllBytes-take, AllBytes-drop,
  put_be16-AllBytes,
}
use mathlib.Core.Path.{subst}
use scepter.Net.Checksum.{put_be16, net_checksum}
use scepter.Net.Proto.{
  write_at, checked, put_be16, Address, icmp_rx_ip, unchecked_header, eth_header, echo_reply,
  with_checksum, slice, reply_message, byte_at, reply_header, same_bytes, join_reply,
}
use scepter.Net.Checksum.Valid.{AllBytes, no_bytes, more_bytes, net_checksum-total}
use scepter.Base.{
  ℕ, drop, List, arith, take, refl, ◌≡◌, ◌∷◌, length, some, ◌≤◌, ◌∙◌, [], ◌%◌, ◌/◌, ◌++◌, ap, false,
  sym, ◌||◌, Bool, min, ◌*◌, ◌-◌, Option, none, ltb, some_inj, none≢some, true, true≢false,
  length-take, if◌then◌else◌, not, ◌!=◌, ap₂, ◌+◌, ◌<◌, set, get_or-set_ne,
}

-- No test that returns 0 was met where the call returned 1.
accepted {ℓ} :
    {A : Type ℓ} (short version bad_length other_proto other_ip small other_kind : Bool) (r o : A)
    → (if short
        then none
        else if version
        then none
        else if bad_length
        then none
        else if other_proto
        then none
        else if other_ip
        then none
        else if small
        then none
        else if other_kind
        then none
        else some r)
      ≡ some o
    → (bad_length ≡ false) × (r ≡ o)
accepted true b c d f g h r o e = absurd (none≢some o e)
accepted false true c d f g h r o e = absurd (none≢some o e)
accepted false false true d f g h r o e = absurd (none≢some o e)
accepted false false false true f g h r o e = absurd (none≢some o e)
accepted false false false false true g h r o e = absurd (none≢some o e)
accepted false false false false false true h r o e = absurd (none≢some o e)
accepted false false false false false false true r o e = absurd (none≢some o e)
accepted false false false false false false false r o e = (refl, some_inj e)

both_false : (a b : Bool) → (a || b) ≡ false → (a ≡ false) × (b ≡ false)
both_false true b e = absurd (true≢false e)
both_false false b e = (refl, e)

ip_header-AllBytes :
    (iface : Address) (packet : List ℕ) (iplen ihlen : ℕ)
    → AllBytes packet
    → AllBytes iface.ip
    → AllBytes (unchecked_header iface packet iplen ihlen)
ip_header-AllBytes iface packet iplen ihlen bp bi =
    let r0 =
      AllBytes-write_at (take ihlen packet) 0 (69 ∷ []) (AllBytes-take ihlen packet bp)
        (more_bytes (omega arith) no_bytes) in
    let r1 =
      AllBytes-write_at _ 2 (put_be16 (iplen % 65536)) r0
        (put_be16-AllBytes (iplen % 65536) (omega arith)) in
    let r2 = AllBytes-write_at _ 4 (put_be16 0) r1 (put_be16-AllBytes 0 (omega arith)) in
    let r3 = AllBytes-write_at _ 6 (put_be16 0) r2 (put_be16-AllBytes 0 (omega arith)) in
    let r4 =
      AllBytes-write_at _ 8 (64 ∷ 1 ∷ []) r3
        (more_bytes (omega arith) (more_bytes (omega arith) no_bytes)) in
    let r5 = AllBytes-write_at _ 12 iface.ip r4 bi in
    AllBytes-write_at _ 16 (slice packet 12 4) r5 (AllBytes-take 4 _ (AllBytes-drop 12 packet bp))

length-ip_header :
    (iface : Address) (packet : List ℕ) (iplen ihlen : ℕ)
    → length (unchecked_header iface packet iplen ihlen) ≡ min ihlen (length packet)
length-ip_header iface packet iplen ihlen =
    length-write_at _ 16 (slice packet 12 4)
    ∙ length-write_at _ 12 iface.ip
    ∙ length-write_at _ 8 (64 ∷ 1 ∷ [])
    ∙ length-write_at _ 6 (put_be16 0)
    ∙ length-write_at _ 4 (put_be16 0)
    ∙ length-write_at _ 2 (put_be16 (iplen % 65536))
    ∙ length-write_at (take ihlen packet) 0 (69 ∷ [])
    ∙ length-take ihlen packet

-- What is written further on leaves the first byte.
first-write_at :
    (bytes : List ℕ) (i : ℕ) (xs : List ℕ)
    → 0 < i
    → byte_at (write_at bytes i xs) 0 ≡ byte_at bytes 0
first-write_at bytes i [] h = refl
first-write_at bytes i (x ∷ xs) h =
    first-write_at (set bytes i x) (i + 1) xs (omega arith)
    ∙ get_or-set_ne bytes i 0 x 0 (λ e. absurd (omega arith))

first-set : (bytes : List ℕ) (x : ℕ) → 0 < length bytes → byte_at (set bytes 0 x) 0 ≡ x
first-set [] x h = absurd (omega arith)
first-set (y ∷ bytes) x h = refl

first-ip_header :
    (iface : Address) (packet : List ℕ) (iplen ihlen : ℕ)
    → 0 < ihlen
    → 0 < length packet
    → byte_at (unchecked_header iface packet iplen ihlen) 0 ≡ 69
first-ip_header iface packet iplen ihlen hi hp =
    let r0 = write_at (take ihlen packet) 0 (69 ∷ []) in
    let r1 = write_at r0 2 (put_be16 (iplen % 65536)) in
    let r2 = write_at r1 4 (put_be16 0) in
    let r3 = write_at r2 6 (put_be16 0) in
    let r4 = write_at r3 8 (64 ∷ 1 ∷ []) in
    let r5 = write_at r4 12 iface.ip in
    first-write_at r5 16 (slice packet 12 4) (omega arith)
    ∙ first-write_at r4 12 iface.ip (omega arith)
    ∙ first-write_at r3 8 (64 ∷ 1 ∷ []) (omega arith)
    ∙ first-write_at r2 6 (put_be16 0) (omega arith)
    ∙ first-write_at r1 4 (put_be16 0) (omega arith)
    ∙ first-write_at r0 2 (put_be16 (iplen % 65536)) (omega arith)
    ∙ first-set (take ihlen packet) 69 (omega (arith, length-take ihlen packet))

-- The checksum field changes neither the length nor the first byte.
checked-shape :
    (bytes : List ℕ) (i : ℕ) (o : Option ℕ) (out : List ℕ)
    → 0 < i
    → with_checksum bytes i o ≡ some out
    → (length out ≡ length bytes) × (byte_at out 0 ≡ byte_at bytes 0)
checked-shape bytes i none out h e = absurd (none≢some out e)
checked-shape bytes i (some c) out h e =
    subst (λ q. (length q ≡ length bytes) × (byte_at q 0 ≡ byte_at bytes 0)) (some_inj e)
      (length-write_at bytes i (put_be16 c), first-write_at bytes i (put_be16 c) h)

assembled :
    (iface : Address) (packet : List ℕ) (iplen ihlen : ℕ) (src_mac : Option (List ℕ))
    (header message : List ℕ)
    → checked (reply_header iface packet iplen ihlen) 10 ≡ some header
    → checked (reply_message packet iplen ihlen) 2 ≡ some message
    → echo_reply iface packet iplen ihlen src_mac
      ≡ some (eth_header iface src_mac ++ header ++ message)
assembled iface packet iplen ihlen src_mac header message eh em =
    ap₂ (join_reply (eth_header iface src_mac)) eh em

-- The reply of a packet with a header of at least 20 bytes.
echo_reply-Header :
    (iface : Address) (packet : List ℕ) (iplen ihlen : ℕ) (src_mac : Option (List ℕ))
    → AllBytes packet
    → AllBytes iface.ip
    → iplen ≤ length packet
    → iplen ≤ 65536
    → 20 ≤ ihlen
    → ihlen ≤ iplen
    → (header : List ℕ) × ((message : List ℕ) × ((echo_reply iface packet iplen ihlen src_mac
            ≡ some (eth_header iface src_mac ++ header ++ message))
          × ((length header ≡ ihlen) × ((byte_at header 0 ≡ 69) × (net_checksum header ≡ some 0)))))
echo_reply-Header iface packet iplen ihlen src_mac bp bi hp hl h20 hi =
    let size = length-ip_header iface packet iplen ihlen in
    let (header, (eh, ev)) =
      checked-Valid (unchecked_header iface packet iplen ihlen)
        (ip_header-AllBytes iface packet iplen ihlen bp bi) (omega (arith, size))
        (omega (arith, size)) in
    let body = reply_message packet iplen ihlen in
    let (c, ec) =
      net_checksum-total body
        (AllBytes-write_at _ 0 (0 ∷ []) (AllBytes-take _ _ (AllBytes-drop ihlen packet bp))
          (more_bytes (omega arith) no_bytes))
        (omega (
          arith,
          length-write_at (slice packet ihlen (iplen - ihlen)) 0 (0 ∷ []),
          length-take (iplen - ihlen) (drop ihlen packet),
        )) in
    let message = write_at body 2 (put_be16 c) in
    let em : checked body 2 ≡ some message = ap (with_checksum body 2) ec in
    let bare = unchecked_header iface packet iplen ihlen in
    let (len, first) =
      checked-shape (reply_header iface packet iplen ihlen) 10 _ header (omega arith) eh in
    let long : length header ≡ ihlen =
      len ∙ length-write_at bare 10 (put_be16 0) ∙ size ∙ omega arith in
    let five : byte_at header 0 ≡ 69 =
      first
      ∙ first-write_at bare 10 (put_be16 0) (omega arith)
      ∙ first-ip_header iface packet iplen ihlen (omega arith) (omega arith) in
    (
      header,
      (
        message,
        (assembled iface packet iplen ihlen src_mac header message eh em, (long, (five, ev))),
      ),
    )

-- Where icmp_rx_ip answers an echo request without IP options, so that its first byte is 0x45, the
-- reply is always made: its IP header has the 20 bytes that its own first byte says, and carries a
-- checksum that a receiver finds right over them. The packet and the address are bytes, and the
-- packet has at most 65536 of them.
pub icmp_rx_ip-Header :
    (iface : Address) (packet : List ℕ) (iplen : ℕ) (src_mac reply : Option (List ℕ))
    → AllBytes packet
    → AllBytes iface.ip
    → iplen ≤ length packet
    → iplen ≤ 65536
    → byte_at packet 0 ≡ 69
    → icmp_rx_ip iface packet iplen src_mac ≡ some reply
    → (header : List ℕ) × ((message : List ℕ) × ((reply
            ≡ some (eth_header iface src_mac ++ header ++ message))
          × ((length header ≡ 20) × ((byte_at header 0 ≡ 69) × (net_checksum header ≡ some 0)))))
unfolding icmp_rx_ip
icmp_rx_ip-Header iface packet iplen src_mac reply bp bi hp hl plain e =
    let ihlen = byte_at packet 0 % 16 * 4 in
    let (t, same) =
      accepted (ltb iplen 20) (byte_at packet 0 / 16 != 4) (ltb ihlen 20 || ltb iplen ihlen)
        (byte_at packet 9 != 1) (not (same_bytes (slice packet 16 4) iface.ip))
        (ltb (iplen - ihlen) 8) (byte_at packet ihlen != 8)
        (echo_reply iface packet iplen ihlen src_mac) reply e in
    let (t1, t2) = both_false (ltb ihlen 20) (ltb iplen ihlen) t in
    let long : 20 ≤ ihlen = ground arith in
    let inside : ihlen ≤ iplen = ground arith in
    let (header, (message, (er, (size, (five, ev))))) =
      echo_reply-Header iface packet iplen ihlen src_mac bp bi hp hl long inside in
    let bare : ihlen ≡ 20 = ap (λ b. b % 16 * 4) plain in
    (header, (message, (sym same ∙ er, (size ∙ bare, (five, ev)))))
