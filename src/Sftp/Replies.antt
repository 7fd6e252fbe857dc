-- ===== src/Sftp/Replies.antt =====
-- The replies that are rows of u64 read back.
use flatline.Common.{ℕ, ◌^◌, ◌<◌, ◌≡◌, refl, List, ◌++◌, ok}
use mathlib.Core.Path.{subst}
use flatline.Wire.{Consumer, new, peek, advance, consume_u64}
use flatline.Wire.Bytes.{be_bytes, length-be_bytes}
use flatline.Wire.Reads.{peek-advance, consume_u64-Reads}
use flatline.Sftp.{Limits, Statvfs, parse_limits, parse_statvfs}

next_u64 :
    (n : ℕ) (c : Consumer) (rest : List ℕ)
    → n < 2 ^ 64
    → peek c ≡ be_bytes 8 n ++ rest
    → (consume_u64 c ≡ ok (n, advance c 8)) × (peek (advance c 8) ≡ rest)
next_u64 n c rest small e =
    subst (λ k. (consume_u64 c ≡ ok (n, advance c k)) × (peek (advance c k) ≡ rest))
      (length-be_bytes 8 n)
      (consume_u64-Reads n small c rest e, peek-advance c (be_bytes 8 n) rest e)

-- Four numbers in the order of the fields are read as the limits, whatever follows them.
pub parse_limits_lem :
    (l : Limits) (rest : List ℕ)
    → l.max_packet_len < 2 ^ 64
    → l.max_read_len < 2 ^ 64
    → l.max_write_len < 2 ^ 64
    → l.max_open_handles < 2 ^ 64
    → parse_limits (
        be_bytes 8 l.max_packet_len
        ++ (be_bytes 8 l.max_read_len
            ++ (be_bytes 8 l.max_write_len ++ (be_bytes 8 l.max_open_handles ++ rest))))
      ≡ ok l
unfolding parse_limits new
parse_limits_lem l rest h0 h1 h2 h3 =
    let c0 : Consumer = new (
      be_bytes 8 l.max_packet_len
      ++ (be_bytes 8 l.max_read_len
          ++ (be_bytes 8 l.max_write_len ++ (be_bytes 8 l.max_open_handles ++ rest)))) in
    let s0 =
      next_u64 l.max_packet_len c0
        (be_bytes 8 l.max_read_len
          ++ (be_bytes 8 l.max_write_len ++ (be_bytes 8 l.max_open_handles ++ rest)))
        h0 refl in
    let c1 = advance c0 8 in
    let s1 =
      next_u64 l.max_read_len c1
        (be_bytes 8 l.max_write_len ++ (be_bytes 8 l.max_open_handles ++ rest)) h1 s0.1 in
    let c2 = advance c1 8 in
    let s2 = next_u64 l.max_write_len c2 (be_bytes 8 l.max_open_handles ++ rest) h2 s1.1 in
    let c3 = advance c2 8 in
    let s3 = next_u64 l.max_open_handles c3 rest h3 s2.1 in rw s0.0 (rw s1.0 (rw s2.0 (rw s3.0)))

-- Eleven numbers in the order of the fields are read as the state of a file system, whatever follows.
pub parse_statvfs_lem :
    (s : Statvfs) (rest : List ℕ)
    → s.bsize < 2 ^ 64
    → s.frsize < 2 ^ 64
    → s.blocks < 2 ^ 64
    → s.bfree < 2 ^ 64
    → s.bavail < 2 ^ 64
    → s.files < 2 ^ 64
    → s.ffree < 2 ^ 64
    → s.favail < 2 ^ 64
    → s.fsid < 2 ^ 64
    → s.flag < 2 ^ 64
    → s.namemax < 2 ^ 64
    → parse_statvfs (
        be_bytes 8 s.bsize
        ++ (be_bytes 8 s.frsize
            ++ (be_bytes 8 s.blocks
                ++ (be_bytes 8 s.bfree
                    ++ (be_bytes 8 s.bavail
                        ++ (be_bytes 8 s.files
                            ++ (be_bytes 8 s.ffree
                                ++ (be_bytes 8 s.favail
                                    ++ (be_bytes 8 s.fsid
                                        ++ (be_bytes 8 s.flag
                                            ++ (be_bytes 8 s.namemax ++ rest)))))))))))
      ≡ ok s
unfolding parse_statvfs new
parse_statvfs_lem s rest h0 h1 h2 h3 h4 h5 h6 h7 h8 h9 h10 =
    let c0 : Consumer = new (
      be_bytes 8 s.bsize
      ++ (be_bytes 8 s.frsize
          ++ (be_bytes 8 s.blocks
              ++ (be_bytes 8 s.bfree
                  ++ (be_bytes 8 s.bavail
                      ++ (be_bytes 8 s.files
                          ++ (be_bytes 8 s.ffree
                              ++ (be_bytes 8 s.favail
                                  ++ (be_bytes 8 s.fsid
                                      ++ (be_bytes 8 s.flag
                                          ++ (be_bytes 8 s.namemax ++ rest))))))))))) in
    let s0 =
      next_u64 s.bsize c0
        (be_bytes 8 s.frsize
          ++ (be_bytes 8 s.blocks
              ++ (be_bytes 8 s.bfree
                  ++ (be_bytes 8 s.bavail
                      ++ (be_bytes 8 s.files
                          ++ (be_bytes 8 s.ffree
                              ++ (be_bytes 8 s.favail
                                  ++ (be_bytes 8 s.fsid
                                      ++ (be_bytes 8 s.flag
                                          ++ (be_bytes 8 s.namemax ++ rest))))))))))
        h0 refl in
    let c1 = advance c0 8 in
    let s1 =
      next_u64 s.frsize c1
        (be_bytes 8 s.blocks
          ++ (be_bytes 8 s.bfree
              ++ (be_bytes 8 s.bavail
                  ++ (be_bytes 8 s.files
                      ++ (be_bytes 8 s.ffree
                          ++ (be_bytes 8 s.favail
                              ++ (be_bytes 8 s.fsid
                                  ++ (be_bytes 8 s.flag ++ (be_bytes 8 s.namemax ++ rest)))))))))
        h1 s0.1 in
    let c2 = advance c1 8 in
    let s2 =
      next_u64 s.blocks c2
        (be_bytes 8 s.bfree
          ++ (be_bytes 8 s.bavail
              ++ (be_bytes 8 s.files
                  ++ (be_bytes 8 s.ffree
                      ++ (be_bytes 8 s.favail
                          ++ (be_bytes 8 s.fsid
                              ++ (be_bytes 8 s.flag ++ (be_bytes 8 s.namemax ++ rest))))))))
        h2 s1.1 in
    let c3 = advance c2 8 in
    let s3 =
      next_u64 s.bfree c3
        (be_bytes 8 s.bavail
          ++ (be_bytes 8 s.files
              ++ (be_bytes 8 s.ffree
                  ++ (be_bytes 8 s.favail
                      ++ (be_bytes 8 s.fsid
                          ++ (be_bytes 8 s.flag ++ (be_bytes 8 s.namemax ++ rest)))))))
        h3 s2.1 in
    let c4 = advance c3 8 in
    let s4 =
      next_u64 s.bavail c4
        (be_bytes 8 s.files
          ++ (be_bytes 8 s.ffree
              ++ (be_bytes 8 s.favail
                  ++ (be_bytes 8 s.fsid ++ (be_bytes 8 s.flag ++ (be_bytes 8 s.namemax ++ rest))))))
        h4 s3.1 in
    let c5 = advance c4 8 in
    let s5 =
      next_u64 s.files c5
        (be_bytes 8 s.ffree
          ++ (be_bytes 8 s.favail
              ++ (be_bytes 8 s.fsid ++ (be_bytes 8 s.flag ++ (be_bytes 8 s.namemax ++ rest)))))
        h5 s4.1 in
    let c6 = advance c5 8 in
    let s6 =
      next_u64 s.ffree c6
        (be_bytes 8 s.favail
          ++ (be_bytes 8 s.fsid ++ (be_bytes 8 s.flag ++ (be_bytes 8 s.namemax ++ rest))))
        h6 s5.1 in
    let c7 = advance c6 8 in
    let s7 =
      next_u64 s.favail c7
        (be_bytes 8 s.fsid ++ (be_bytes 8 s.flag ++ (be_bytes 8 s.namemax ++ rest))) h7 s6.1 in
    let c8 = advance c7 8 in
    let s8 = next_u64 s.fsid c8 (be_bytes 8 s.flag ++ (be_bytes 8 s.namemax ++ rest)) h8 s7.1 in
    let c9 = advance c8 8 in
    let s9 = next_u64 s.flag c9 (be_bytes 8 s.namemax ++ rest) h9 s8.1 in
    let c10 = advance c9 8 in
    let s10 = next_u64 s.namemax c10 rest h10 s9.1 in
    rw s0.0 (
      rw s1.0
        (rw s2.0 (rw s3.0 (rw s4.0 (rw s5.0 (rw s6.0 (rw s7.0 (rw s8.0 (rw s9.0 (rw s10.0))))))))))
