-- ===== src/Glacier/Walk/Header.antt =====
-- A blob header is read back as it was written.
use everarch.Prelude.{
  ℕ, ◌%◌, ◌≡◌, sym, ap, ap₂, ◌∙◌, true, some, List, [], ◌∷◌, ◌++◌, append_assoc, arith, length,
  take-append, length-append,
}
use native.Mathlib.Nat.{mod-eq_of_lt}
use everarch.Bytes.{u32, u64, push_u8, push_be, push_checksum, checksum_u8, pull_u8, pull_checksum}
use everarch.Bytes.Codec.{pull_be-push_be_zero, pull_n-append, length-push_be}
use everarch.Bytes.Checksum.{checksum_u8-IsByte, pull_checksum_self}
use everarch.Glacier.{WritingBlob}
use everarch.Glacier.WriteBlob.{blob_header}
use everarch.Glacier.Walk.{BlobStat, pull_stat, parse_blob_header}

-- the header without its checksum
abbrev pub header_front : WritingBlob → ℕ → List ℕ
header_front blob now = blob.key ++ push_u8 blob.flags ++ push_be 8 now ++ push_be 4 blob.size

-- What the header of a blob says of it.
abbrev pub stat_of : WritingBlob → ℕ → ℕ → BlobStat
stat_of blob now offset = record {
  ref = blob.key;
  flags = blob.flags % 256;
  last_modified = now % u64;
  size = blob.size % u32;
  checksum = checksum_u8 (header_front blob now);
  checksum_valid = true;
  offset = offset;
}

length-header_front :
    (blob : WritingBlob) (now : ℕ) → length blob.key ≡ 28 → length (header_front blob now) ≡ 41
unfolding push_u8
length-header_front blob now e = omega (
  arith,
  e,
  length-append (blob.key ++ push_u8 blob.flags ++ push_be 8 now) (push_be 4 blob.size),
  length-append (blob.key ++ push_u8 blob.flags) (push_be 8 now),
  length-append blob.key (push_u8 blob.flags),
  length-push_be 8 now,
  length-push_be 4 blob.size,
)

pull_stat-fields :
    (front key : List ℕ) (flags now size checksum offset : ℕ)
    → length key ≡ 28
    → pull_stat front offset
        (key ++ (flags ∷ (push_be 8 now ++ (push_be 4 size ++ (checksum ∷ [])))))
      ≡ some (record {
        ref = key;
        flags = flags;
        last_modified = now % u64;
        size = size % u32;
        checksum = checksum;
        checksum_valid = pull_checksum front checksum;
        offset = offset;
      })
unfolding pull_stat pull_u8
pull_stat-fields front key flags now size checksum offset e = rw (
  pull_n-append key (flags ∷ (push_be 8 now ++ (push_be 4 size ++ (checksum ∷ [])))) 28 (sym e),
  pull_be-push_be_zero 8 now (push_be 4 size ++ (checksum ∷ [])),
  pull_be-push_be_zero 4 size (checksum ∷ []),
)

regroup :
    (key t s : List ℕ) (flags checksum : ℕ)
    → key ++ (flags ∷ []) ++ t ++ s ++ (checksum ∷ [])
      ≡ key ++ (flags ∷ (t ++ (s ++ (checksum ∷ []))))
regroup key t s flags checksum =
    append_assoc (key ++ (flags ∷ []) ++ t) s (checksum ∷ [])
    ∙ append_assoc (key ++ (flags ∷ [])) t (s ++ (checksum ∷ []))
    ∙ append_assoc key (flags ∷ []) (t ++ (s ++ (checksum ∷ [])))

pub parse-blob_header :
    (blob : WritingBlob) (now offset : ℕ)
    → length blob.key ≡ 28
    → parse_blob_header (blob_header blob now) offset ≡ some (stat_of blob now offset)
unfolding parse_blob_header blob_header push_checksum push_u8
parse-blob_header blob now offset e =
    ap (λ front. pull_stat front offset (x ++ (c ∷ [])))
      (take-append 41 x (c ∷ []) (sym (length-header_front blob now e)))
    ∙ ap (pull_stat x offset)
        (regroup blob.key (push_be 8 now) (push_be 4 blob.size) (blob.flags % 256) c)
    ∙ pull_stat-fields x blob.key (blob.flags % 256) now blob.size c offset e
    ∙ ap₂
        (λ k v. some (record {
          ref = blob.key;
          flags = blob.flags % 256;
          last_modified = now % u64;
          size = blob.size % u32;
          checksum = k;
          checksum_valid = v;
          offset = offset;
        }))
        byte (ap (pull_checksum x) byte ∙ pull_checksum_self x)
  where
    x : List ℕ
    x = blob.key ++ (blob.flags % 256 ∷ []) ++ push_be 8 now ++ push_be 4 blob.size

    c : ℕ
    c = checksum_u8 x % 256

    byte : c ≡ checksum_u8 x
    byte = mod-eq_of_lt {n = checksum_u8 x} (checksum_u8-IsByte x)
