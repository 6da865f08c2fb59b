-- ===== src/Builder/Zstd/RoundTrip.antt =====
-- Reading a frame back, and the end of the loop that reads one.
use mathlib.Core.List.{append_assoc}
use xmcl_shared_node_agent.Base.{
  ℕ, zero, suc, ◌+◌, ◌*◌, ◌/◌, ◌%◌, ◌≤◌, ◌<◌, ◌≡◌, ◌≢◌, refl, ap, ◌∙◌, ◌&&◌, true, List, [], ◌∷◌,
  ◌++◌, none, some, leb, ltb, ◌==◌, length, take, drop, arith, length-append, Bool-cases, inl, inr,
}
use xmcl_shared_node_agent.Base.{length-drop, length-take, take_front, drop_front, take-drop}
use xmcl_shared_node_agent.Js.Fault.{ok}
use xmcl_shared_node_agent.Limits.{max_package_tar_bytes, max_package_archive_bytes}
use xmcl_shared_node_agent.Builder.Zstd.{
  block_bytes, block_header, blocks, rounds, frame, raw_zstd, unblock, read_frame, unpack_zstd,
  little_endian,
}

-- The loop that reads blocks ends on every input: one round more than there are bytes left is
-- enough, so that the answer of the frame is never that of a loop that was cut off.
pub unblock-ne-none :
    (fuel : ℕ) (rest read : List ℕ) → length rest < fuel → unblock fuel rest read ≢ none
unfolding unblock
unblock-ne-none zero rest read h = absurd (omega arith)
unblock-ne-none (suc fuel) [] read h = λ e. cc
unblock-ne-none (suc fuel) (a ∷ []) read h = λ e. cc
unblock-ne-none (suc fuel) (a ∷ b ∷ []) read h = λ e. cc
unblock-ne-none (suc fuel) (a ∷ b ∷ c ∷ rest) read h =
    let header = a + 256 * b + 65536 * c in
    let size = header / 8 in
    let later =
      unblock-ne-none fuel (drop size rest) (read ++ take size rest)
        (omega (arith, length-drop size rest)) in
    elim (Bool-cases (header / 2 % 4 == 0 && leb size block_bytes && leb size (length rest))) [
      | inr bad ↦ rw bad (λ e. cc)
      | inl good ↦ elim (Bool-cases (header % 2 == 1)) [
        | inl last ↦ rw (good, last) (λ e. cc)
        | inr more ↦ rw (good, more) later
      ]
    ]

-- A block's header read back.
header_value :
    (h : ℕ) → h < 16777216 → h % 256 + 256 * (h / 256 % 256) + 65536 * (h / 65536 % 256) ≡ h
header_value h small = omega arith

-- One round on the last block, and on a whole block before others.
unblock_last :
    (fuel : ℕ) (input read : List ℕ)
    → length input ≤ block_bytes
    → unblock (suc fuel) (block_header (length input) 1 ++ input) read ≡ some (ok (read ++ input))
unfolding unblock
unblock_last fuel input read fits =
    rw (header_value (length input * 8 + 1) (omega arith)) (ground arith)

unblock_more :
    (fuel : ℕ) (chunk rest read : List ℕ)
    → length chunk ≡ block_bytes
    → unblock (suc fuel) (block_header block_bytes 0 ++ chunk ++ rest) read
      ≡ unblock fuel rest (read ++ chunk)
unfolding unblock
unblock_more fuel chunk rest read whole =
    let long : leb 131072 (length (chunk ++ rest)) ≡ true =
      ground (arith, length-append chunk rest) in
    rw (long, take_front 131072 chunk rest whole, drop_front 131072 chunk rest whole) refl

unblock-blocks :
    (n fuel : ℕ) (input read : List ℕ)
    → 1 ≤ length input
    → length input ≤ n * block_bytes
    → n ≤ fuel
    → unblock fuel (blocks n input) read ≡ some (ok (read ++ input))
unfolding blocks
unblock-blocks zero fuel input read some_byte fits enough = absurd (omega arith)
unblock-blocks (suc n) zero input read some_byte fits enough = absurd (omega arith)
unblock-blocks (suc n) (suc fuel) input read some_byte fits enough =
    elim (Bool-cases (ltb block_bytes (length input))) [
      | inr last ↦ rw last (unblock_last fuel input read (ground arith))
      | inl more ↦
          let long : block_bytes < length input = ground arith in
          let whole = length-take block_bytes input (omega arith) in
          let later =
            unblock-blocks n fuel (drop block_bytes input) (read ++ take block_bytes input)
              (omega (arith, length-drop block_bytes input))
              (omega (arith, length-drop block_bytes input)) (omega arith) in
          rw more (
            unblock_more fuel (take block_bytes input) (blocks n (drop block_bytes input)) read
              whole
            ∙ later
            ∙ ap (λ r. some (ok r))
                (append_assoc read _ _ ∙ ap (λ r. read ++ r) (take-drop block_bytes input)))
    ]

-- The blocks hold the input, and a header besides where there is any input.
length-blocks :
    (n : ℕ) (input : List ℕ)
    → length input ≤ n * block_bytes
    → 1 ≤ length input
    → length input + 3 ≤ length (blocks n input)
unfolding blocks
length-blocks zero input fits some_byte = absurd (omega arith)
length-blocks (suc n) input fits some_byte = elim (Bool-cases (ltb block_bytes (length input))) [
  | inr last ↦ rw last (omega arith)
  | inl more ↦
      let long : block_bytes < length input = ground arith in
      let later =
        length-blocks n (drop block_bytes input) (omega (arith, length-drop block_bytes input))
          (omega (arith, length-drop block_bytes input)) in
      rw more (
        omega (
          arith,
          later,
          length-drop block_bytes input,
          length-take block_bytes input (omega arith),
          length-append (take block_bytes input) (blocks n (drop block_bytes input)),
        ))
]

read_frame-blocks :
    (input : List ℕ)
    → 1 ≤ length input
    → length input < 4294967296
    → read_frame (little_endian (length input) ++ blocks (rounds (length input)) input) ≡ ok input
unfolding read_frame
read_frame-blocks input some_byte small =
    let n = rounds (length input) in
    let long = length-blocks n input (omega arith) some_byte in
    let loop =
      unblock-blocks n (suc (length (blocks n input))) input [] some_byte (omega arith)
        (omega (arith, long)) in
    rw (loop, read_frame) (ground arith)

-- What is packed is read back: where a tar that is not empty is packed without an error, its
-- archive is unpacked to the same tar.
pub unpack_zstd-raw_zstd :
    (tar archive : List ℕ)
    → 1 ≤ length tar
    → raw_zstd tar ≡ ok archive
    → unpack_zstd archive ≡ ok tar
unfolding raw_zstd unpack_zstd
unpack_zstd-raw_zstd tar archive some_byte packed =
    let same : frame tar ≡ archive = ground arith in
    let short : leb (length (frame tar)) max_package_archive_bytes ≡ true = ground arith in
    let small : length tar ≤ max_package_tar_bytes = ground arith in
    let long = length-blocks (rounds (length tar)) tar (omega arith) some_byte in
    let enough : leb 12 (length (frame tar)) ≡ true = ground (arith, long) in
    rw (← same, enough, short, unpack_zstd) (read_frame-blocks tar some_byte (omega arith))
