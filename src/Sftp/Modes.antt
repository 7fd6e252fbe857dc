-- ===== src/Sftp/Modes.antt =====
-- File types and permissions in one number.
use Prim.Native.Nat.{bit_or}
use flatline.Common.{
  ℕ, ◌-◌, ◌^◌, ◌<◌, ◌≡◌, refl, bit_and, ◌==◌, ==_iff, Bool, true, false, ◌&&◌, some,
}
use flatline.Common.Bits.{passes, passes_at}
use flatline.Sftp.{FileType, directory, as_u32, from_u32, PermissionsAndFileType, try_from, bits}

-- What `try_from` gives for a file type and permissions `p`, without the rest of the record.
abbrev reads_back : FileType → ℕ → Bool
reads_back t p =
    (bit_and (bit_or p (as_u32 t)) 0xf000 == as_u32 t)
    && (bit_and (bit_and (bit_or p (as_u32 t)) (2 ^ 32 - 1 - 0xf000)) 0x1ff == p)

reads_back_table : (t : FileType) → passes (reads_back t) 512 ≡ true
unfolding passes as_u32
reads_back_table directory = refl
reads_back_table _ = refl

from_u32-as_u32 : (t : FileType) → from_u32 (as_u32 t) ≡ some t
unfolding from_u32 as_u32
from_u32-as_u32 directory = refl
from_u32-as_u32 _ = refl

both : (a b : Bool) → (a && b) ≡ true → (a ≡ true) × (b ≡ true)
both true b e = (refl, e)
both false b e = absurd (cc)

-- The number made of a file type and of permission bits among the lowest nine gives both back.
pub try_from-bits : (p : PermissionsAndFileType) → p.permissions < 512 → try_from (bits p) ≡ some p
unfolding try_from bits
try_from-bits p small =
    let t = p.file_type in
    let v = bits p in
    let (kind, rest) =
      both (bit_and v 0xf000 == as_u32 t)
        (bit_and (bit_and v (2 ^ 32 - 1 - 0xf000)) 0x1ff == p.permissions)
        (passes_at (reads_back t) 512 p.permissions (reads_back_table t) small) in
    rw (
      (==_iff (bit_and v 0xf000) (as_u32 t)).0 kind,
      (==_iff (bit_and (bit_and v (2 ^ 32 - 1 - 0xf000)) 0x1ff) p.permissions).0 rest,
      from_u32-as_u32 t,
    )
