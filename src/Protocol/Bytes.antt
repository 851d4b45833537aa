-- ===== src/Protocol/Bytes.antt =====
-- The packed structures as they lie in memory on the program's little-endian machines: what memcpy
-- from and to a header moves.
use hv_frame_test.Base.{
  ℕ, ◌+◌, ◌*◌, ◌/◌, ◌%◌, ◌<◌, ◌≡◌, refl, List, [], ◌∷◌, ◌++◌, arith, get_or, length, u8_mod,
  u16_mod, u32_mod,
}
use hv_frame_test.Protocol.{UdpPacketHeader, FrameHeader}

abbrev le16 : ℕ → List ℕ
le16 n = (n % 256) ∷ (n / 256 % 256) ∷ []

abbrev le32 : ℕ → List ℕ
le32 n = (n % 256) ∷ (n / 256 % 256) ∷ (n / 65536 % 256) ∷ (n / 16777216 % 256) ∷ []

-- The fields that the bytes from an index on hold.
abbrev read8 : List ℕ → ℕ → ℕ
read8 b i = get_or b i 0

abbrev read16 : List ℕ → ℕ → ℕ
read16 b i = get_or b i 0 + 256 * get_or b (i + 1) 0

abbrev read32 : List ℕ → ℕ → ℕ
read32 b i =
    get_or b i 0
    + 256 * get_or b (i + 1) 0
    + 65536 * get_or b (i + 2) 0
    + 16777216 * get_or b (i + 3) 0

unfoldable pub encode_packet_header : UdpPacketHeader → List ℕ
encode_packet_header h =
    le32 h.frame_id ++ (le16 h.packet_id ++ (le16 h.packet_count ++ le32 h.payload_size))

unfoldable pub decode_packet_header : List ℕ → UdpPacketHeader
decode_packet_header b = record {
  frame_id = read32 b 0;
  packet_id = read16 b 4;
  packet_count = read16 b 6;
  payload_size = read32 b 8;
}

unfoldable pub encode_frame_header : FrameHeader → List ℕ
encode_frame_header h =
    le32 h.magic
    ++ (le16 h.version
        ++ (le16 h.width
            ++ (le16 h.height ++ (h.bitdepth % 256) ∷ (h.reserved % 256) ∷ le32 h.frame_size)))

decode_frame_header : List ℕ → FrameHeader
decode_frame_header b = record {
  magic = read32 b 0;
  version = read16 b 4;
  width = read16 b 6;
  height = read16 b 8;
  bitdepth = read8 b 10;
  reserved = read8 b 11;
  frame_size = read32 b 12;
}

pub length-encode_packet_header : (h : UdpPacketHeader) → length (encode_packet_header h) ≡ 12
unfolding encode_packet_header
length-encode_packet_header h = refl

pub length-encode_frame_header : (h : FrameHeader) → length (encode_frame_header h) ≡ 16
unfolding encode_frame_header
length-encode_frame_header h = refl

digits32 :
    (n : ℕ)
    → n < u32_mod
    → n % 256 + 256 * (n / 256 % 256) + 65536 * (n / 65536 % 256) + 16777216 * (n / 16777216 % 256)
      ≡ n
digits32 n h = omega arith

digits16 : (n : ℕ) → n < u16_mod → n % 256 + 256 * (n / 256 % 256) ≡ n
digits16 n h = omega arith

-- A packet header whose fields fit is read back from its bytes, whatever follows them.
pub decode-encode_packet_header :
    (h : UdpPacketHeader) (rest : List ℕ)
    → h.frame_id < u32_mod
    → h.packet_id < u16_mod
    → h.packet_count < u16_mod
    → h.payload_size < u32_mod
    → decode_packet_header (encode_packet_header h ++ rest) ≡ h
unfolding decode_packet_header encode_packet_header
decode-encode_packet_header h rest a b c d = λ i. record {
  frame_id = digits32 h.frame_id a i;
  packet_id = digits16 h.packet_id b i;
  packet_count = digits16 h.packet_count c i;
  payload_size = digits32 h.payload_size d i;
}

-- A frame header whose fields fit is read back from its bytes, whatever follows them.
decode-encode_frame_header :
    (h : FrameHeader) (rest : List ℕ)
    → (h.magic < u32_mod) × (h.frame_size < u32_mod)
    → (h.version < u16_mod) × (h.width < u16_mod) × (h.height < u16_mod)
    → (h.bitdepth < u8_mod) × (h.reserved < u8_mod)
    → decode_frame_header (encode_frame_header h ++ rest) ≡ h
unfolding decode_frame_header encode_frame_header
decode-encode_frame_header h rest (a, g) (b, c, d) (e, f) = λ i. record {
  magic = digits32 h.magic a i;
  version = digits16 h.version b i;
  width = digits16 h.width c i;
  height = digits16 h.height d i;
  bitdepth = byte h.bitdepth e i;
  reserved = byte h.reserved f i;
  frame_size = digits32 h.frame_size g i;
}
  where
    byte : (n : ℕ) → n < u8_mod → n % 256 ≡ n
    byte n lt = omega arith
