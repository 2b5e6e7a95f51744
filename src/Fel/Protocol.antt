-- ===== src/Fel/Protocol.antt =====
-- recovery/crates/sunxi-fel/src/protocol.rs and error.rs: the messages and their bytes.
use project_chronos_engine.Prelude.{
  ℕ, ◌/◌, ◌%◌, ◌^◌, Bytes, List, [], ◌∷◌, ◌++◌, Option, none, some, replicate, ◌==◌, if◌then◌else◌,
  le_bytes, of_le, take, drop, length, get_or,
}

-- "AWUC\0\0\0\0", "AWUS" and "AWUSBFEX".
abbrev pub awuc_magic : Bytes
awuc_magic = 65 ∷ 87 ∷ 85 ∷ 67 ∷ 0 ∷ 0 ∷ 0 ∷ 0 ∷ []

abbrev pub awus_magic : Bytes
awus_magic = 65 ∷ 87 ∷ 85 ∷ 83 ∷ []

abbrev pub version_magic : Bytes
version_magic = 65 ∷ 87 ∷ 85 ∷ 83 ∷ 66 ∷ 70 ∷ 69 ∷ 88 ∷ []

abbrev pub aw_usb_read : ℕ
aw_usb_read = 0x11

abbrev pub aw_usb_write : ℕ
aw_usb_write = 0x12

abbrev pub aw_fel_version : ℕ
aw_fel_version = 0x001

abbrev pub aw_fel_write : ℕ
aw_fel_write = 0x101

abbrev pub aw_fel_exec : ℕ
aw_fel_exec = 0x102

abbrev pub aw_fel_read : ℕ
aw_fel_read = 0x103

pub record AwUsbRequest : Type 0 where
  pub signature : Bytes
  pub length : ℕ
  pub unknown1 : ℕ
  pub request : ℕ
  pub length2 : ℕ
  pub pad : Bytes

abbrev pub usb_request : ℕ → ℕ → AwUsbRequest
usb_request request length_ = record {
  signature = awuc_magic;
  length = length_;
  unknown1 = 0x0c00_0000;
  request = request;
  length2 = length_;
  pad = replicate 10 0;
}

-- `as_bytes` of the packed struct.
abbrev pub usb_request_bytes : AwUsbRequest → Bytes
usb_request_bytes r =
    r.signature
    ++ (le_bytes 4 r.length
        ++ (le_bytes 4 r.unknown1 ++ (le_bytes 2 r.request ++ (le_bytes 4 r.length2 ++ r.pad))))

pub record AwUsbStatus : Type 0 where
  pub signature : Bytes
  pub tag : ℕ
  pub residue : ℕ
  pub csw_status : ℕ

-- `read_from_bytes`, of exactly 13 bytes.
abbrev pub usb_status_of : Bytes → Option AwUsbStatus
usb_status_of buf =
    if length buf == 13
    then some (record {
      signature = take 4 buf;
      tag = of_le (take 4 (drop 4 buf));
      residue = of_le (take 4 (drop 8 buf));
      csw_status = get_or buf 12 0;
    })
    else none

pub record FelRequest : Type 0 where
  pub request : ℕ
  pub address : ℕ
  pub length : ℕ
  pub pad : ℕ

abbrev pub fel_request_of : ℕ → ℕ → ℕ → FelRequest
fel_request_of request address length_ = record {
  request = request;
  address = address;
  length = length_;
  pad = 0;
}

abbrev pub fel_request_bytes : FelRequest → Bytes
fel_request_bytes r =
    le_bytes 4 r.request ++ (le_bytes 4 r.address ++ (le_bytes 4 r.length ++ le_bytes 4 r.pad))

-- The parts that the source names, by their code.
pub data Soc : Type 0 where
  a10 a13 a31 a80 a23 a20 a33_r16 a83t h3 v3s a64 r40 t7 h5 a63 h6 h616 : Soc

abbrev soc_table : List (ℕ × Soc)
soc_table =
    (0x1623, a10)
    ∷ (0x1625, a13)
    ∷ (0x1633, a31)
    ∷ (0x1639, a80)
    ∷ (0x1650, a23)
    ∷ (0x1651, a20)
    ∷ (0x1667, a33_r16)
    ∷ (0x1673, a83t)
    ∷ (0x1680, h3)
    ∷ (0x1681, v3s)
    ∷ (0x1689, a64)
    ∷ (0x1701, r40)
    ∷ (0x1708, t7)
    ∷ (0x1718, h5)
    ∷ (0x1719, a63)
    ∷ (0x1728, h6)
    ∷ (0x1755, h616)
    ∷ []

abbrev soc_in : List (ℕ × Soc) → ℕ → Option Soc
soc_in [] code = none
soc_in ((k, soc) ∷ table) code = if code == k then some soc else soc_in table code

abbrev pub soc_name : ℕ → Option Soc
soc_name = soc_in soc_table

pub record FelVersion : Type 0 where
  pub signature : Bytes
  pub soc_id : ℕ
  pub unknown_0a : ℕ
  pub protocol : ℕ
  pub unknown_12 : ℕ
  pub unknown_13 : ℕ
  pub board : ℕ
  pub unknown_15 : ℕ
  pub reserved : Bytes

-- `(soc_id >> 8) & 0xffff`
abbrev pub soc_code : FelVersion → ℕ
soc_code v = v.soc_id / 2 ^ 8 % 2 ^ 16

abbrev pub version_of : Bytes → Option FelVersion
version_of buf =
    if length buf == 32
    then some (record {
      signature = take 8 buf;
      soc_id = of_le (take 4 (drop 8 buf));
      unknown_0a = of_le (take 4 (drop 12 buf));
      protocol = of_le (take 4 (drop 16 buf));
      unknown_12 = get_or buf 20 0;
      unknown_13 = get_or buf 21 0;
      board = get_or buf 22 0;
      unknown_15 = get_or buf 23 0;
      reserved = drop 24 buf;
    })
    else none
