-- ===== src/Sftp/Runs.antt =====
-- Runs of the types on concrete inputs.
use flatline.Common.{◌≡◌, refl, some, arith}
use flatline.Sftp.{PermissionsAndFileType, directory, try_from, bits, from_u32, Limits, Statvfs}
use flatline.Sftp.Modes.{try_from-bits}

-- 0o755
abbrev mode : PermissionsAndFileType
mode = record { permissions = 0x1ed; file_type = directory }

try_from-bits_example : try_from (bits mode) ≡ some mode
try_from-bits_example = try_from-bits mode (omega arith)

abbrev limits : Limits
limits = record {
  max_packet_len = 262144;
  max_read_len = 261120;
  max_write_len = 261120;
  max_open_handles = 1019;
}

abbrev state : Statvfs
state = record {
  bsize = 4096;
  frsize = 4096;
  blocks = 1000;
  bfree = 500;
  bavail = 400;
  files = 90;
  ffree = 80;
  favail = 70;
  fsid = 3;
  flag = 1;
  namemax = 255;
}

-- The set-user-id bit is dropped.
drops_special_bits : try_from 0x49ed ≡ some mode
unfolding try_from from_u32
drops_special_bits = refl
