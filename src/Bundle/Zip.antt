-- ===== src/Bundle/Zip.antt =====
-- `readZip` and its checksum, over the bytes of an archive.

use Prim.Native.Nat.{bit_xor}
use xmcl_shared_node_agent.Base.{
  ℕ, zero, suc, ◌+◌, ◌-◌, ◌*◌, ◌/◌, ◌%◌, String, Bool, not, ◌&&◌, ◌||◌, List, [], ◌∷◌, Option, some,
  leb, ltb, ◌==◌, length, take, drop, if◌then◌else◌,
}
use xmcl_shared_node_agent.Base.Dict
use xmcl_shared_node_agent.Base.Dict.{Dict}
use xmcl_shared_node_agent.Js.Fault.{
  Fault, compiler_failure, plain_error, Result, ok, err, ensure, of_option, ◌>>=◌, ◌>>◌,
}
use xmcl_shared_node_agent.Limits.{max_package_input_bytes}
use xmcl_shared_node_agent.Bundle.Path.{safe_zip_path}

-- `TextDecoder.decode` and `inflateRawSync`, which throw on some bytes.
pub record Unpacker : Type 0 where
  pub decode : List ℕ → Option String
  pub inflate : List ℕ → Option (List ℕ)

abbrev pub max_bundle_entries : ℕ
max_bundle_entries = 4096

abbrev pub max_entry_bytes : ℕ
max_entry_bytes = 64 * 1024 * 1024

abbrev pub invalid_bundle : Fault
invalid_bundle = compiler_failure "invalid_bundle"

-- `getUint16` and `getUint32`, little end first; a range error past the end
unfoldable pub u16 : List ℕ → ℕ → Result ℕ
u16 bytes offset = elim (drop offset bytes) [ a ∷ b ∷ _ ↦ ok (a + 256 * b) | _ ↦ err plain_error ]

unfoldable pub u32 : List ℕ → ℕ → Result ℕ
unfolding u16
u32 bytes offset = do low ← u16 bytes offset; high ← u16 bytes (offset + 2); ok (low + 65536 * high)

-- One step of the checksum on a bit, and on a byte.
abbrev pub crc_bits : ℕ → ℕ → ℕ
crc_bits zero crc = crc
crc_bits (suc n) crc = crc_bits n (if crc % 2 == 1 then bit_xor 0xedb88320 (crc / 2) else crc / 2)

abbrev pub crc_from : ℕ → List ℕ → ℕ
crc_from crc [] = crc
crc_from crc (b ∷ bs) = crc_from (crc_bits 8 (bit_xor crc b)) bs

unfoldable pub crc32 : List ℕ → ℕ
crc32 bytes = bit_xor (crc_from 0xffffffff bytes) 0xffffffff

-- The search for the end record, from `low + n` down to `low`
unfoldable pub find_end : List ℕ → ℕ → ℕ → Result ℕ
unfolding u32
find_end bytes low zero = do
  mark ← u32 bytes low
  ensure (mark == 0x06054b50) invalid_bundle
  ok low
find_end bytes low (suc n) = do
  mark ← u32 bytes (low + suc n)
  let rest = find_end bytes low n
  if mark == 0x06054b50 then ok (low + suc n) else rest

-- An entry of the central directory.
pub record Central : Type 0 where
  pub flags : ℕ
  pub method : ℕ
  pub crc : ℕ
  pub compressed : ℕ
  pub size : ℕ
  pub name_length : ℕ
  pub extra_length : ℕ
  pub comment_length : ℕ
  pub local_offset : ℕ

unfoldable pub read_central : List ℕ → ℕ → Result Central
unfolding u16 u32
read_central bytes cursor = do
  mark ← u32 bytes cursor
  ensure (mark == 0x02014b50) invalid_bundle
  flags ← u16 bytes (cursor + 8)
  method ← u16 bytes (cursor + 10)
  crc ← u32 bytes (cursor + 16)
  compressed ← u32 bytes (cursor + 20)
  size ← u32 bytes (cursor + 24)
  name_length ← u16 bytes (cursor + 28)
  extra_length ← u16 bytes (cursor + 30)
  comment_length ← u16 bytes (cursor + 32)
  local_offset ← u32 bytes (cursor + 42)
  ok (record {
    flags = flags;
    method = method;
    crc = crc;
    compressed = compressed;
    size = size;
    name_length = name_length;
    extra_length = extra_length;
    comment_length = comment_length;
    local_offset = local_offset;
  })

abbrev pub end_of : ℕ → Central → ℕ
end_of cursor c = cursor + 46 + c.name_length + c.extra_length + c.comment_length

-- `size / compressedSize > 100` on 32-bit numbers
abbrev pub central_ok : ℕ → ℕ → ℕ → Central → Bool
central_ok total cursor logical c =
    leb (end_of cursor c) total
    && not (c.flags % 2 == 1)
    && (c.method == 0 || c.method == 8)
    && leb c.size max_entry_bytes
    && leb logical max_package_input_bytes
    && not (ltb 0 c.size && (c.compressed == 0 || ltb (100 * c.compressed) c.size))

abbrev pub slice : List ℕ → ℕ → ℕ → List ℕ
slice bytes offset n = take n (drop offset bytes)

-- The bytes of an entry, checked against its size and its checksum.
unfoldable pub read_data : Unpacker → List ℕ → ℕ → Central → Result (List ℕ)
unfolding u16 u32 crc32
read_data unpacker bytes central_offset c = do
  ensure (leb (c.local_offset + 30) central_offset) invalid_bundle
  mark ← u32 bytes c.local_offset
  ensure (mark == 0x04034b50) invalid_bundle
  name_length ← u16 bytes (c.local_offset + 26)
  extra_length ← u16 bytes (c.local_offset + 28)
  ensure (leb (c.local_offset + 30 + name_length + extra_length + c.compressed) central_offset)
      invalid_bundle
  data_bytes ←
      of_option
        (if c.method == 0
          then some (slice bytes (c.local_offset + 30 + name_length + extra_length) c.compressed)
          else unpacker.inflate
              (slice bytes (c.local_offset + 30 + name_length + extra_length) c.compressed))
        invalid_bundle
  ensure (length data_bytes == c.size && crc32 data_bytes == c.crc) invalid_bundle
  ok data_bytes

-- The loop over the central directory: the entries so far, the cursor and the logical size.
unfoldable pub read_entries :
    Unpacker → List ℕ → ℕ → ℕ → Dict (List ℕ) → ℕ → ℕ → Result (Dict (List ℕ) × ℕ)
unfolding read_central read_data
read_entries unpacker bytes central_offset zero entries cursor logical = ok (entries, cursor)
read_entries unpacker bytes central_offset (suc n) entries cursor logical = do
  ensure (leb (cursor + 46) (length bytes)) invalid_bundle
  c ← read_central bytes cursor
  ensure (central_ok (length bytes) cursor (logical + c.size) c) invalid_bundle
  path ← of_option (unpacker.decode (slice bytes (cursor + 46) c.name_length)) invalid_bundle
  ensure (safe_zip_path path && not (Dict.has entries path)) invalid_bundle
  data_bytes ← read_data unpacker bytes central_offset c
  read_entries unpacker bytes central_offset n (Dict.put entries path data_bytes) (end_of cursor c)
      (logical + c.size)

-- `readZip`
unfoldable pub read_zip : Unpacker → List ℕ → Result (Dict (List ℕ))
unfolding find_end read_entries u16 u32
read_zip unpacker bytes = do
  ensure (leb 22 (length bytes)) invalid_bundle
  end_record ← find_end bytes (length bytes - 65557) (length bytes - 22 - (length bytes - 65557))
  disk ← u16 bytes (end_record + 4)
  central_disk ← u16 bytes (end_record + 6)
  ensure (disk == 0 && central_disk == 0) invalid_bundle
  count ← u16 bytes (end_record + 10)
  central_size ← u32 bytes (end_record + 12)
  central_offset ← u32 bytes (end_record + 16)
  ensure (leb count max_bundle_entries && leb (central_offset + central_size) end_record)
      invalid_bundle
  entries ← read_entries unpacker bytes central_offset count [] central_offset 0
  ensure (entries.1 == central_offset + central_size) invalid_bundle
  ok entries.0
