-- ===== src/Packet/Header.antt =====
-- PacketHeader of net/packet.h and its setters. Parameters of a setter are converted to the width of
-- the field, as the call does.
use deps.Prelude.{ℕ, ◌%◌, ◌^◌, ◌<◌, List, ◌++◌}
use deps.Marshal.Bytes.{host_bytes}

pub record ProtoHeader : Type 0 where
  pub length : ℕ
  pub cmd : ℕ
  pub seq : ℕ

pub record SubProtoHeader : Type 0 where
  pub cmd : ℕ
  pub check_code : ℕ

pub record PacketHeader : Type 0 where
  pub main : ProtoHeader
  pub sub : SubProtoHeader

-- enum MainProtoType
pub data MainProtoType : Type 0 where
  unknown paxos : MainProtoType

unfoldable pub proto_code : MainProtoType → ℕ
proto_code unknown = 0
proto_code paxos = 1

-- clear(), which the constructor calls.
unfoldable pub cleared : PacketHeader
unfolding proto_code
cleared = record {
  main = record { length = 12; cmd = proto_code paxos; seq = 0 };
  sub = record { cmd = 0; check_code = 0 };
}

unfoldable pub set_main_cmd : ℕ → PacketHeader → PacketHeader
set_main_cmd cmd h = record h {
  main = record { length = h.main.length; cmd = cmd % 2 ^ 16; seq = h.main.seq };
}

unfoldable pub set_seq : ℕ → PacketHeader → PacketHeader
set_seq seq h = record h {
  main = record { length = h.main.length; cmd = h.main.cmd; seq = seq % 2 ^ 32 };
}

unfoldable pub set_length : ℕ → PacketHeader → PacketHeader
set_length len h = record h {
  main = record { length = len % 2 ^ 16; cmd = h.main.cmd; seq = h.main.seq };
}

unfoldable pub set_sub_cmd : ℕ → PacketHeader → PacketHeader
set_sub_cmd cmd h = record h { sub = record { cmd = cmd % 2 ^ 16; check_code = h.sub.check_code } }

unfoldable pub set_check_code : ℕ → PacketHeader → PacketHeader
set_check_code check_code h = record h {
  sub = record { cmd = h.sub.cmd; check_code = check_code % 2 ^ 16 };
}

-- Every field fits its type.
pub record FitsHeader (h : PacketHeader) : Type 0 where
  pub length : h.main.length < 2 ^ 16
  pub cmd : h.main.cmd < 2 ^ 16
  pub seq : h.main.seq < 2 ^ 32
  pub sub_cmd : h.sub.cmd < 2 ^ 16
  pub check_code : h.sub.check_code < 2 ^ 16

-- The layout on the wire: 12 bytes, each field with its lowest byte first.
abbrev pub header_bytes : PacketHeader → List ℕ
header_bytes h =
    host_bytes 2 h.main.length
    ++ (host_bytes 2 h.main.cmd
        ++ (host_bytes 4 h.main.seq ++ (host_bytes 2 h.sub.cmd ++ host_bytes 2 h.sub.check_code)))
