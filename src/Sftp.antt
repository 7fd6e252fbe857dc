-- ===== src/Sftp.antt =====
-- session/sftp/types.rs: file types and permissions, and the replies that are rows of u64.
pub mod Modes
pub mod Replies
mod Runs
use Prim.Native.Nat.{bit_or}
use flatline.Common.{
  ℕ, ◌+◌, ◌-◌, ◌^◌, bit_and, ◌==◌, if◌then◌else◌, Bool, true, false, Option, none, some, List,
  Result, ok, ◌>>=◌,
}
use mathlib.Core.Option
use flatline.Wire.{Consumer, new, consume_u64}

pub data FileType : Type 0 where
  directory character_device block_device regular_file fifo symbolic_link socket : FileType

-- The discriminants, `as u32`.
unfoldable pub as_u32 : FileType → ℕ
as_u32 directory = 0x4000
as_u32 character_device = 0x2000
as_u32 block_device = 0x6000
as_u32 regular_file = 0x8000
as_u32 fifo = 0x1000
as_u32 symbolic_link = 0xa000
as_u32 socket = 0xc000

-- `TryFromPrimitive`
unfoldable pub from_u32 : ℕ → Option FileType
from_u32 v =
    if v == 0x4000
    then some directory
    else if v == 0x2000
    then some character_device
    else if v == 0x6000
    then some block_device
    else if v == 0x8000
    then some regular_file
    else if v == 0x1000
    then some fifo
    else if v == 0xa000
    then some symbolic_link
    else if v == 0xc000
    then some socket
    else none

-- `FileType::MASK`, `Permissions::MASK` and the bits that `Permissions` names.
abbrev pub file_type_mask : ℕ
file_type_mask = 0xf000

abbrev pub permissions_mask : ℕ
permissions_mask = 2 ^ 32 - 1 - 0xf000

abbrev pub all_permissions : ℕ
all_permissions = 0x1ff

pub record PermissionsAndFileType : Type 0 where
  pub permissions : ℕ
  pub file_type : FileType

-- `try_from`; an unknown file type is the only error. Bits without a name are dropped.
unfoldable pub try_from : ℕ → Option PermissionsAndFileType
unfolding from_u32
try_from value =
    Option.map
      (λ t. record {
        permissions = bit_and (bit_and value permissions_mask) all_permissions;
        file_type = t;
      })
      (from_u32 (bit_and value file_type_mask))

unfoldable pub bits : PermissionsAndFileType → ℕ
unfolding as_u32
bits p = bit_or p.permissions (as_u32 p.file_type)

pub record Limits : Type 0 where
  pub max_packet_len : ℕ
  pub max_read_len : ℕ
  pub max_write_len : ℕ
  pub max_open_handles : ℕ

unfoldable pub parse_limits : List ℕ → Result Limits
unfolding new
parse_limits bytes = do
  (max_packet_len, c) ← consume_u64 (new bytes)
  (max_read_len, c) ← consume_u64 c
  (max_write_len, c) ← consume_u64 c
  (max_open_handles, c) ← consume_u64 c
  ok (record {
    max_packet_len = max_packet_len;
    max_read_len = max_read_len;
    max_write_len = max_write_len;
    max_open_handles = max_open_handles;
  })

pub record Statvfs : Type 0 where
  pub bsize : ℕ
  pub frsize : ℕ
  pub blocks : ℕ
  pub bfree : ℕ
  pub bavail : ℕ
  pub files : ℕ
  pub ffree : ℕ
  pub favail : ℕ
  pub fsid : ℕ
  pub flag : ℕ
  pub namemax : ℕ

unfoldable pub parse_statvfs : List ℕ → Result Statvfs
unfolding new
parse_statvfs bytes = do
  (bsize, c) ← consume_u64 (new bytes)
  (frsize, c) ← consume_u64 c
  (blocks, c) ← consume_u64 c
  (bfree, c) ← consume_u64 c
  (bavail, c) ← consume_u64 c
  (files, c) ← consume_u64 c
  (ffree, c) ← consume_u64 c
  (favail, c) ← consume_u64 c
  (fsid, c) ← consume_u64 c
  (flag, c) ← consume_u64 c
  (namemax, c) ← consume_u64 c
  ok (record {
    bsize = bsize;
    frsize = frsize;
    blocks = blocks;
    bfree = bfree;
    bavail = bavail;
    files = files;
    ffree = ffree;
    favail = favail;
    fsid = fsid;
    flag = flag;
    namemax = namemax;
  })
