-- ===== src/Builder/Zstd.antt =====
-- `rawZstd` and the frame of `unpackDeterministicTarZst`: blocks that are stored as they are.

pub mod RoundTrip
use xmcl_shared_node_agent.Base.{
  ℕ, zero, suc, ◌+◌, ◌-◌, ◌*◌, ◌/◌, ◌%◌, Bool, true, false, not, ◌&&◌, ◌||◌, List, [], ◌∷◌, ◌++◌,
  Option, none, some, leb, ltb, ◌==◌, length, take, drop, if◌then◌else◌,
}
use xmcl_shared_node_agent.Js.Fault.{
  Fault, compiler_failure, plain_error, Result, ok, err, ensure, ◌>>=◌, ◌>>◌,
}
use xmcl_shared_node_agent.Limits.{max_package_tar_bytes, max_package_archive_bytes}

abbrev pub invalid_output : Fault
invalid_output = compiler_failure "invalid_builder_output"

-- `RAW_ZSTD_BLOCK_BYTES`
abbrev pub block_bytes : ℕ
block_bytes = 131072

-- `littleEndian32`
abbrev pub little_endian : ℕ → List ℕ
little_endian n = (n % 256) ∷ (n / 256 % 256) ∷ (n / 65536 % 256) ∷ (n / 16777216 % 256) ∷ []

-- The magic number and the frame's descriptor, and its size.
abbrev pub frame_header : ℕ → List ℕ
frame_header size = 0x28 ∷ 0xb5 ∷ 0x2f ∷ 0xfd ∷ 0xa0 ∷ little_endian size

-- A block's header: its size, its type 0 and whether it is the last.
abbrev pub block_header : ℕ → ℕ → List ℕ
block_header size last =
    let header = size * 8 + last in
    (header % 256) ∷ (header / 256 % 256) ∷ (header / 65536 % 256) ∷ []

-- The loop over the blocks, with its number of rounds; the input is what is still to be written.
unfoldable pub blocks : ℕ → List ℕ → List ℕ
blocks zero input = []
blocks (suc n) input =
    let rest = blocks n (drop block_bytes input) in
    if ltb block_bytes (length input)
    then block_header block_bytes 0 ++ take block_bytes input ++ rest
    else block_header (length input) 1 ++ input

abbrev pub rounds : ℕ → ℕ
rounds size = (size + 131071) / 131072

abbrev pub frame : List ℕ → List ℕ
frame input = frame_header (length input) ++ blocks (rounds (length input)) input

-- `rawZstd`
unfoldable pub raw_zstd : List ℕ → Result (List ℕ)
unfolding blocks
raw_zstd input = do
  ensure (leb (length input) max_package_tar_bytes) invalid_output
  ensure (leb (length (frame input)) max_package_archive_bytes) invalid_output
  ok (frame input)

-- The loop that reads blocks up to the last one, from what is left of the archive; `none` is a loop
-- that needs more fuel.
unfoldable pub unblock : ℕ → List ℕ → List ℕ → Option (Result (List ℕ))
unblock zero rest read = none
unblock (suc fuel) (a ∷ b ∷ c ∷ rest) read =
    let header = a + 256 * b + 65536 * c in
    let size = header / 8 in
    let next = unblock fuel (drop size rest) (read ++ take size rest) in
    if header / 2 % 4 == 0 && leb size block_bytes && leb size (length rest)
    then if header % 2 == 1
      then some (if size == length rest then ok (read ++ rest) else err invalid_output)
      else next
    else some (err invalid_output)
unblock (suc fuel) _ read = some (err invalid_output)

abbrev pub settled : {A : Type 0} → Option (Result A) → Result A
settled none = err plain_error
settled (some r) = r

abbrev pub read_little_endian : ℕ → ℕ → ℕ → ℕ → ℕ
read_little_endian a b c d = a + 256 * b + 65536 * c + 16777216 * d

-- The frame behind its magic number: the size of the content, and its blocks.
unfoldable pub read_frame : List ℕ → Result (List ℕ)
unfolding unblock
read_frame (a ∷ b ∷ c ∷ d ∷ rest) = do
  read ← settled (unblock (suc (length rest)) rest [])
  ensure (length read == read_little_endian a b c d) invalid_output
  ok read
read_frame _ = err invalid_output

abbrev pub strip_magic : List ℕ → Option (List ℕ)
strip_magic (a ∷ b ∷ c ∷ d ∷ e ∷ rest) =
    if a == 0x28 && b == 0xb5 && c == 0x2f && d == 0xfd && e == 0xa0 then some rest else none
strip_magic _ = none

-- The tar within the archive, as `unpackDeterministicTarZst` reads it.
unfoldable pub unpack_zstd : List ℕ → Result (List ℕ)
unfolding read_frame
unpack_zstd archive =
    if leb 12 (length archive) && leb (length archive) max_package_archive_bytes
    then elim (strip_magic archive) [ none ↦ err invalid_output | some rest ↦ read_frame rest ]
    else err invalid_output
