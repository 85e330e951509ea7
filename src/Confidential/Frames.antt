-- ===== src/Confidential/Frames.antt =====
-- The frames of an encrypted request body: `validatedEHBPBody` of
-- confidential_chat_completions_handler.go. Its source is an io.Reader: an argument.
pub mod Bounds
use dappnode_nexus_gateway.Common.{
  ℕ, ◌+◌, ◌-◌, ◌*◌, ◌≤◌, ◌<◌, min, Bool, true, false, ◌&&◌, List, [], ◌∷◌, ◌++◌, Option, none, some,
  if◌then◌else◌, ◌==◌, nat_eq, ltb, length, take, drop, is_none,
}
use dappnode_nexus_gateway.Common.Bytes.{Bytes}

abbrev pub confidential_max_ehbp_frame : ℕ
confidential_max_ehbp_frame = 1_048_592

abbrev pub confidential_max_ehbp_body : ℕ
confidential_max_ehbp_body = 16_777_216

pub data ReadError : Type 0 where
  eof unexpected_eof no_progress empty_frame frame_too_large body_too_large other : ReadError

-- `Read` of a source with a buffer of this size, and `io.ReadFull`: what was read, and the error.
pub record Reader (S : Type 0) : Type 0 where
  pub read : S → ℕ → S × (Bytes × Option ReadError)
  pub read_full : S → ℕ → S × (Bytes × Option ReadError)

-- What an io.Reader promises.
pub record IsReader {S : Type 0} (reader : Reader S) : Type 0 where
  pub read_fits : (s : S) (n : ℕ) → length (reader.read s n).1.0 ≤ n

pub record ValidatedBody (S : Type 0) : Type 0 where
  pub source : S
  pub max_frame : ℕ
  pub max_body : ℕ
  pub wire_size : ℕ
  pub prefix : Bytes
  pub prefix_offset : ℕ
  pub frame_remaining : ℕ

unfoldable pub new_validated_body : {S : Type 0} → S → ℕ → ℕ → ValidatedBody S
new_validated_body source max_frame max_body = record {
  source = source;
  max_frame = max_frame;
  max_body = max_body;
  wire_size = 0;
  prefix = 0 ∷ 0 ∷ 0 ∷ 0 ∷ [];
  prefix_offset = 4;
  frame_remaining = 0;
}

-- `binary.BigEndian.Uint32`.
unfoldable pub big_endian : ℕ → Bytes → ℕ
big_endian n [] = n
big_endian n (c ∷ s) = big_endian (256 * n + c) s

-- A read gives the body after it, the bytes and the error.
abbrev pub Read : Type 0 → Type 0
Read S = ValidatedBody S × (Bytes × Option ReadError)

module _ {S : Type 0} (reader : Reader S) where
  -- The rest of the length of a frame.
  unfoldable pub read_prefix : ValidatedBody S → ℕ → Read S
  read_prefix r size =
      let n = min size (4 - r.prefix_offset) in
      (
        record r { prefix_offset = r.prefix_offset + n },
        (take n (drop r.prefix_offset r.prefix), none),
      )

  -- What `Read` returns of a frame, of which some is left.
  unfoldable pub frame_error : ℕ → Bytes → Option ReadError → Bytes × Option ReadError
  frame_error left [] none = ([], some no_progress)
  frame_error left (c ∷ s) none = (c ∷ s, none)
  frame_error left s (some eof) = if ltb 0 left then (s, some unexpected_eof) else (s, some eof)
  frame_error left s (some unexpected_eof) = (s, some unexpected_eof)
  frame_error left s (some no_progress) = (s, some no_progress)
  frame_error left s (some empty_frame) = (s, some empty_frame)
  frame_error left s (some frame_too_large) = (s, some frame_too_large)
  frame_error left s (some body_too_large) = (s, some body_too_large)
  frame_error left s (some other) = (s, some other)

  unfoldable pub read_frame : ValidatedBody S → ℕ → Read S
  read_frame r size =
      let (source, (s, e)) = reader.read r.source (min size r.frame_remaining) in
      let left = r.frame_remaining - length s in
      (record r { source = source; frame_remaining = left }, frame_error left s e)

  -- A frame whose length is read.
  unfoldable pub start_frame : ValidatedBody S → ℕ → ℕ → Read S
  start_frame r size frame_size =
      if frame_size == 0
      then (r, ([], some empty_frame))
      else if ltb r.max_frame frame_size
      then (r, ([], some frame_too_large))
      else if ltb (r.max_body - r.wire_size) (4 + frame_size)
      then (r, ([], some body_too_large))
      else (
        record r {
          wire_size = r.wire_size + (4 + frame_size);
          prefix_offset = min size 4;
          frame_remaining = frame_size;
        },
        (take (min size 4) r.prefix, none),
      )

  unfoldable pub read_header : ValidatedBody S → ℕ → Read S
  read_header r size =
      let (source, (s, e)) = reader.read_full r.source 4 in
      let read = record r { source = source; prefix = s } in
      elim e [ some x ↦ (read, ([], some x)) | none ↦ start_frame read size (big_endian 0 s) ]

  -- `Read` with a buffer of this size.
  unfoldable pub read_body : ValidatedBody S → ℕ → Read S
  read_body r size =
      if size == 0
      then (r, ([], none))
      else if ltb r.prefix_offset 4
      then read_prefix r size
      else if ltb 0 r.frame_remaining
      then read_frame r size
      else read_header r size

  -- A number of reads, with what they give together.
  unfoldable pub read_all : ValidatedBody S → List ℕ → ValidatedBody S × Bytes
  read_all r [] = (r, [])
  read_all r (size ∷ sizes) =
      let (q, (s, e)) = read_body r size in let (last, rest) = read_all q sizes in (last, s ++ rest)
