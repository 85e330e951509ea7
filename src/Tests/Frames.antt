-- ===== src/Tests/Frames.antt =====
-- An encrypted body of one frame, read in two parts.
use dappnode_nexus_gateway.Common.{
  ◌≤◌, ◌≡◌, refl, [], ◌∷◌, none, some, if◌then◌else◌, ltb, length, take, drop,
}
use dappnode_nexus_gateway.Common.Bytes.{Bytes}
use dappnode_nexus_gateway.Confidential.Frames.{
  Reader, IsReader, eof, new_validated_body, read_all, read_body, read_prefix, read_frame,
  read_header, start_frame, frame_error, big_endian,
}
use dappnode_nexus_gateway.Confidential.Frames.Bounds.{length-take, read_all-bounded}

abbrev reader : Reader Bytes
reader = record {
  read = λ s n. (drop n s, (take n s, if ltb 0 (length s) then none else some eof));
  read_full = λ s n. (drop n s, (take n s, if ltb (length s) n then some eof else none));
}

reader-IsReader : IsReader reader
reader-IsReader = record { read_fits = λ s n. length-take n s }

abbrev sent : Bytes
sent = 0 ∷ 0 ∷ 0 ∷ 2 ∷ 7 ∷ 8 ∷ []

read_all-bounded_example :
    (length (read_all reader (new_validated_body sent 100 1000) (3 ∷ 9 ∷ 9 ∷ [])).1 ≤ 1000)
    × ((read_all reader (new_validated_body sent 100 1000) (3 ∷ 9 ∷ 9 ∷ [])).0.frame_remaining
        ≤ 100)
read_all-bounded_example = read_all-bounded reader reader-IsReader sent 100 1000 (3 ∷ 9 ∷ 9 ∷ [])

-- The frame passes unchanged.
read_all_computed : (read_all reader (new_validated_body sent 100 1000) (3 ∷ 9 ∷ 9 ∷ [])).1 ≡ sent
unfolding new_validated_body read_all read_body read_prefix read_frame read_header start_frame
    frame_error big_endian
read_all_computed = refl
