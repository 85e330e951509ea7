-- ===== src/Service/Pii.antt =====
-- Restoring personal data in a stream: the buffers of services/pii.go, which hold back what may be
-- the start of a placeholder.
pub mod Unmasker
pub mod Masker
pub mod Request
use mathlib.Core.List.{reverse}
use dappnode_nexus_gateway.Common.{
  ℕ, zero, suc, ◌-◌, Bool, true, false, ◌&&◌, not, List, [], ◌∷◌, ◌++◌, Option, none, some,
  if◌then◌else◌, ◌==◌, nat_eq, leb, ltb, any, length, take, drop, max, same_folded,
}
use dappnode_nexus_gateway.Common.Bytes.{Bytes}
use dappnode_nexus_gateway.Domain.Pii.{PiiMapping}
use dappnode_nexus_gateway.Domain.Pii.Mask.{bare_aliases_by_length, is_boundary, head, unmask}

-- The start of the last `[` that no `]` follows, or the length; the bytes come last first.
unfoldable pub open_cut : Bytes → Bytes → ℕ
open_cut full [] = length full
open_cut full (c ∷ before) =
    let rest = open_cut full before in
    if c == b'['
    then (if any (λ d. d == b']') (drop (length before) full) then length full else length before)
    else if c == b']'
    then length full
    else rest

unfoldable pub longest : List Bytes → ℕ
longest [] = 0
longest (alias ∷ aliases) = max (length alias) (longest aliases)

-- Whether the byte before a place bounds a word.
abbrev pub starts_word : Bytes → ℕ → Bool
starts_word text zero = true
starts_word text (suc i) = is_boundary (head (drop i text))

-- Whether a suffix starts an alias.
abbrev pub begins_alias : Bytes → Bytes → Bool
begins_alias suffix alias =
    leb (length suffix) (length alias) && same_folded (take (length suffix) alias) suffix

-- The loop over the starts, from below a number down.
unfoldable pub hold_from : Bytes → List Bytes → ℕ → ℕ → Option ℕ
hold_from text aliases start_at zero = none
hold_from text aliases start_at (suc start) =
    let rest = hold_from text aliases start_at start in
    if ltb start start_at
    then none
    else if starts_word text start && any (begins_alias (drop start text)) aliases
    then some start
    else rest

unfoldable pub bare_alias_hold_start : Bytes → PiiMapping → Option ℕ
unfolding hold_from longest
bare_alias_hold_start text m =
    if length m.token_to_original == 0
    then none
    else let aliases = bare_aliases_by_length m in
      hold_from text aliases (length text - longest aliases) (length text)

unfoldable pub hold_cut : Bytes → PiiMapping → ℕ
unfolding open_cut bare_alias_hold_start
hold_cut full m =
    let cut = open_cut full (reverse full) in
    elim (bare_alias_hold_start full m) [
      | none ↦ cut
      | some bare ↦ if ltb bare cut then bare else cut
    ]

-- What stays in the buffer, and what is given.
unfoldable pub feed_pii_stream_buffer : PiiMapping → Bytes → Bytes → Bytes × Bytes
unfolding hold_cut
feed_pii_stream_buffer m buffer delta =
    let full = buffer ++ delta in
    let cut = hold_cut full m in (drop cut full, unmask (take cut full) m)

-- What a buffer gives at the end.
unfoldable pub flush_pii_stream_buffer : PiiMapping → Bytes → Bytes
flush_pii_stream_buffer m [] = []
flush_pii_stream_buffer m (c ∷ s) = unmask (c ∷ s) m
