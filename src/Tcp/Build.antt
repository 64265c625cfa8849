-- ===== src/Tcp/Build.antt =====
-- `tcp_build` of kernel/src/net/ip/tcp.c: the header of a segment with its checksum. An address is a
-- number whose low byte comes first in memory.
use k_os.Base.{
  ℕ, ◌+◌, ◌*◌, ◌/◌, ◌%◌, ◌^◌, ◌≤◌, ◌<◌, ◌≡◌, refl, ap, ◌∙◌, Option, none, some, List, [], ◌∷◌,
  length, All, arith,
}
use Prim.Native.Nat.{bit_or}
use k_os.Base.Word.{u32}
use k_os.Swap.{swap_uint16}
use k_os.Swap.Twice.{swap_uint16-bound}
use k_os.Checksum.{payload_sum, sum_to_checksum}
use k_os.Checksum.Fold.{sum_to_checksum_lem}
use k_os.Tcp.Conn.{Segment}

-- `tcp_header_t` as it is sent.
pub record SentHeader : Type 0 where
  pub src_port : ℕ
  pub dst_port : ℕ
  pub seq_num : ℕ
  pub ack_num : ℕ
  pub data_off_flags : ℕ
  pub window_size : ℕ
  pub checksum : ℕ
  pub urgent : ℕ

-- The two words of a 32-bit number.
abbrev pub words_sum : ℕ → ℕ
words_sum n = n % 2 ^ 16 + n / 2 ^ 16

-- The length of a segment in network order.
abbrev pub length_net : Segment → ℕ
length_net s = swap_uint16 ((20 + length s.payload) % 2 ^ 16)

-- `((5 & 0x000F) << 4) | flags` in 16 bits.
unfoldable pub sent_flags : Segment → ℕ
sent_flags s = bit_or (5 * 2 ^ 4) s.flags % 2 ^ 16

-- The words over which the checksum is made, with the address of the interface; a 32-bit sum.
unfoldable pub segment_sum : ℕ → Segment → ℕ
segment_sum own s = u32 (
    words_sum own
    + words_sum s.dst_ip
    + swap_uint16 6
    + length_net s
    + s.src_port_net
    + s.dst_port_net
    + words_sum s.seq_num
    + words_sum s.ack_num
    + sent_flags s
    + swap_uint16 s.window_size
    + swap_uint16 s.urgent
    + payload_sum s.payload)

-- `tcp_build`
unfoldable pub tcp_build : ℕ → Segment → Option SentHeader
tcp_build own s = elim (sum_to_checksum (segment_sum own s)) [
  | none ↦ none
  | some c ↦ some (record {
    src_port = s.src_port_net;
    dst_port = s.dst_port_net;
    seq_num = s.seq_num;
    ack_num = s.ack_num;
    data_off_flags = sent_flags s;
    window_size = swap_uint16 s.window_size;
    checksum = c;
    urgent = swap_uint16 s.urgent;
  })
]

-- The sum that a receiver makes of the header that it got, with the checksum.
abbrev pub received_sum : ℕ → ℕ → SentHeader → List ℕ → ℕ
received_sum src dst hdr payload =
    words_sum src
    + words_sum dst
    + swap_uint16 6
    + swap_uint16 ((20 + length payload) % 2 ^ 16)
    + hdr.src_port
    + hdr.dst_port
    + words_sum hdr.seq_num
    + words_sum hdr.ack_num
    + hdr.data_off_flags
    + hdr.window_size
    + hdr.urgent
    + payload_sum payload
    + hdr.checksum

-- The fields have their widths, and the payload its bytes; an IP packet has no room for more of them.
pub record IsSegment (s : Segment) : Type 0 where
  pub dst_ip : s.dst_ip < 2 ^ 32
  pub src_port : s.src_port_net < 2 ^ 16
  pub dst_port : s.dst_port_net < 2 ^ 16
  pub seq_num : s.seq_num < 2 ^ 32
  pub ack_num : s.ack_num < 2 ^ 32
  pub payload : All (λ b. b < 256) s.payload
  pub few : length s.payload ≤ 65495

payload_sum-bound :
    (bs : List ℕ) → All (λ b. b < 256) bs → payload_sum bs * 2 ≤ (length bs + 1) * (65535)
unfolding payload_sum
payload_sum-bound [] v = omega arith
payload_sum-bound (a ∷ []) (va, v) = omega arith
payload_sum-bound (a ∷ b ∷ bs) (va, (vb, v)) = omega (arith, payload_sum-bound bs v)

sent_flags-bound : (s : Segment) → sent_flags s < 2 ^ 16
unfolding sent_flags
sent_flags-bound s = omega arith

-- A receiver that sums the words of a segment that `tcp_build` made, its checksum included, finds the
-- checksum 0, whatever the flags are. The fields of the segment have their widths, and the payload has
-- at most 65495 bytes, which is what fits into an IP packet.
pub sum_to_checksum-tcp_build :
    (own : ℕ) (s : Segment)
    → own < 2 ^ 32
    → IsSegment s
    → (hdr : SentHeader) × (tcp_build own s ≡ some hdr)
      × (sum_to_checksum (received_sum own s.dst_ip hdr s.payload) ≡ some 0)
unfolding tcp_build segment_sum
sum_to_checksum-tcp_build own s width v =
    let bound = payload_sum-bound s.payload v.payload in
    let a = swap_uint16-bound 6 in
    let b = swap_uint16-bound s.window_size in
    let d = swap_uint16-bound s.urgent in
    let k = sent_flags-bound s in
    let g = swap_uint16-bound ((20 + length s.payload) % 2 ^ 16) in
    let small : segment_sum own s + 2 ^ 16 ≤ 2 ^ 32 = omega (
      arith, bound, v.few, v.dst_ip, v.src_port, v.dst_port, v.seq_num, v.ack_num, k, a, b, d, g,
    ) in
    let (c, e, w, zero_sum) = sum_to_checksum_lem (segment_sum own s) small in
    let hdr : SentHeader = record {
      src_port = s.src_port_net;
      dst_port = s.dst_port_net;
      seq_num = s.seq_num;
      ack_num = s.ack_num;
      data_off_flags = sent_flags s;
      window_size = swap_uint16 s.window_size;
      checksum = c;
      urgent = swap_uint16 s.urgent;
    } in
    let whole : received_sum own s.dst_ip hdr s.payload ≡ segment_sum own s + c = omega (
      arith, bound, v.few, v.dst_ip, v.src_port, v.dst_port, v.seq_num, v.ack_num, k, a, b, d, g,
    ) in
    (hdr, rw (tcp_build, e) refl, ap sum_to_checksum whole ∙ zero_sum)
