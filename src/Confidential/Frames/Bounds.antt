-- ===== src/Confidential/Frames/Bounds.antt =====
-- How much of an encrypted body `validatedEHBPBody` lets through.
use dappnode_nexus_gateway.Common.{
  ℕ, zero, suc, ◌+◌, ◌-◌, ◌≤◌, ◌≡◌, refl, ap, ◌∙◌, min, List, [], ◌∷◌, Option, none, some, ◌==◌,
  nat_eq, ltb, length, take, drop, length-append, arith, Bool-cases, Option-cases, inl, inr,
}
use dappnode_nexus_gateway.Common.Bytes.{Bytes}
use dappnode_nexus_gateway.Confidential.Frames.{
  ReadError, Reader, IsReader, ValidatedBody, new_validated_body, big_endian, Read, read_prefix,
  frame_error, read_frame, start_frame, read_header, read_body, read_all,
}

pub length-take : (n : ℕ) (s : Bytes) → length (take n s) ≤ n
length-take zero s = omega arith
length-take (suc n) [] = omega arith
length-take (suc n) (c ∷ s) = omega (arith, length-take n s)

module _ {S : Type 0} where
  -- What is announced of the body and not read.
  abbrev pending : ValidatedBody S → ℕ
  pending r = (4 - r.prefix_offset) + r.frame_remaining

  record IsWithin (r : ValidatedBody S) : Type 0 where
    body : r.wire_size ≤ r.max_body
    frame : r.frame_remaining ≤ r.max_frame
    offset : r.prefix_offset ≤ 4

  -- What a read may give.
  record IsRead (r q : ValidatedBody S) (given : ℕ) : Type 0 where
    within : IsWithin q
    same_body : q.max_body ≡ r.max_body
    same_frame : q.max_frame ≡ r.max_frame
    paid : (given + pending q) + r.wire_size ≤ pending r + q.wire_size

  abbrev Reads : ValidatedBody S → Read S → Type 0
  Reads r q = IsRead r q.0 (length q.1.0)

  nothing-IsRead : (r : ValidatedBody S) → IsWithin r → IsRead r r 0
  nothing-IsRead r v = record {
    within = v;
    same_body = refl;
    same_frame = refl;
    paid = omega arith;
  }

  module _ (reader : Reader S) (ok : IsReader reader) where
    read_prefix-IsRead :
        (r : ValidatedBody S) (size : ℕ)
        → IsWithin r
        → IsRead r (read_prefix reader r size).0 (length (read_prefix reader r size).1.0)
    unfolding read_prefix
    read_prefix-IsRead r size v =
        let n = min size (4 - r.prefix_offset) in
        record {
          within = record { body = v.body; frame = v.frame; offset = omega (arith, v.offset) };
          same_body = refl;
          same_frame = refl;
          paid = omega (arith, v.offset, length-take n (drop r.prefix_offset r.prefix));
        }

    frame_error-same :
        (left : ℕ) (s : Bytes) (e : Option ReadError) → (frame_error reader left s e).0 ≡ s
    unfolding frame_error
    frame_error-same left [] none = refl
    frame_error-same left (c ∷ s) none = refl
    frame_error-same left s (some e) = ground arith

    read_frame-IsRead :
        (r : ValidatedBody S) (size : ℕ)
        → IsWithin r
        → IsRead r (read_frame reader r size).0 (length (read_frame reader r size).1.0)
    unfolding read_frame
    read_frame-IsRead r size v =
        let n = min size r.frame_remaining in
        let x = reader.read r.source n in
        let same : length (read_frame reader r size).1.0 ≡ length x.1.0 =
          ap length (frame_error-same (r.frame_remaining - length x.1.0) x.1.0 x.1.1) in
        let fits = ok.read_fits r.source n in
        record {
          within = record { body = v.body; frame = omega (arith, v.frame); offset = v.offset };
          same_body = refl;
          same_frame = refl;
          paid = omega (arith, same, fits, v.offset);
        }

    start_frame-IsRead :
        (r : ValidatedBody S) (size frame_size : ℕ)
        → IsWithin r
        → r.frame_remaining ≡ 0
        → 4 ≤ r.prefix_offset
        → Reads r (start_frame reader r size frame_size)
    unfolding start_frame
    start_frame-IsRead r size frame_size v left read = elim (Bool-cases (frame_size == 0)) [
      | inl f ↦ rw (f, start_frame) (nothing-IsRead r v)
      | inr f ↦ elim (Bool-cases (ltb r.max_frame frame_size)) [
        | inl g ↦ rw (f, g, start_frame) (nothing-IsRead r v)
        | inr g ↦ elim (Bool-cases (ltb (r.max_body - r.wire_size) (4 + frame_size))) [
          | inl h ↦ rw (f, g, h, start_frame) (nothing-IsRead r v)
          | inr h ↦
              rw (f, g, h, start_frame)
                (record {
                  within = record {
                    body = ground (arith, h, v.body);
                    frame = ground (arith, g);
                    offset = omega arith;
                  };
                  same_body = refl;
                  same_frame = refl;
                  paid = omega (arith, left, read, length-take (min size 4) r.prefix);
                })
        ]
      ]
    ]

    read_header-IsRead :
        (r : ValidatedBody S) (size : ℕ)
        → IsWithin r
        → r.frame_remaining ≡ 0
        → 4 ≤ r.prefix_offset
        → Reads r (read_header reader r size)
    unfolding read_header
    read_header-IsRead r size v left read =
        let x = reader.read_full r.source 4 in
        let now : ValidatedBody S = record r { source = x.0; prefix = x.1.0 } in
        let within : IsWithin now = record { body = v.body; frame = v.frame; offset = v.offset } in
        let frame = start_frame-IsRead now size (big_endian 0 x.1.0) within left read in
        let none_read = nothing-IsRead now within in
        elim (Option-cases x.1.1) [
          | inl f ↦
              rw (f, read_header)
                (record {
                  within = frame.within;
                  same_body = frame.same_body;
                  same_frame = frame.same_frame;
                  paid = frame.paid;
                })
          | inr (e, f) ↦
              rw (f, read_header)
                (record {
                  within = none_read.within;
                  same_body = refl;
                  same_frame = refl;
                  paid = none_read.paid;
                })
        ]

    read_body-IsRead :
        (r : ValidatedBody S) (size : ℕ) → IsWithin r → Reads r (read_body reader r size)
    unfolding read_body
    read_body-IsRead r size v = elim (Bool-cases (size == 0)) [
      | inl f ↦ rw (f, read_body) (nothing-IsRead r v)
      | inr f ↦ elim (Bool-cases (ltb r.prefix_offset 4)) [
        | inl g ↦ rw (f, g, read_body) (read_prefix-IsRead r size v)
        | inr g ↦ elim (Bool-cases (ltb 0 r.frame_remaining)) [
          | inl h ↦ rw (f, g, h, read_body) (read_frame-IsRead r size v)
          | inr h ↦
              rw (f, g, h, read_body)
                (read_header-IsRead r size v (ground (arith, h)) (ground (arith, g)))
        ]
      ]
    ]

    read_all-IsRead :
        (r : ValidatedBody S) (sizes : List ℕ)
        → IsWithin r
        → IsRead r (read_all reader r sizes).0 (length (read_all reader r sizes).1)
    unfolding read_all
    read_all-IsRead r [] v = nothing-IsRead r v
    read_all-IsRead r (size ∷ sizes) v =
        let x = read_body reader r size in
        let first = read_body-IsRead r size v in
        let rest = read_all-IsRead x.0 sizes first.within in
        record {
          within = rest.within;
          same_body = rest.same_body ∙ first.same_body;
          same_frame = rest.same_frame ∙ first.same_frame;
          paid =
              omega
                (arith, first.paid, rest.paid, length-append x.1.0 (read_all reader x.0 sizes).1);
        }

    -- Whatever a source that keeps the promise of io.Reader sends, and with whatever buffers it is read:
    -- together the reads give at most `max_body` bytes, and at most `max_frame` bytes of a frame are
    -- left to read.
    pub read_all-bounded :
        (source : S) (max_frame max_body : ℕ) (sizes : List ℕ)
        → (length (read_all reader (new_validated_body source max_frame max_body) sizes).1
            ≤ max_body)
          × ((read_all reader
                (new_validated_body source max_frame max_body)
                sizes).0.frame_remaining
              ≤ max_frame)
    unfolding new_validated_body
    read_all-bounded source max_frame max_body sizes =
        let r = new_validated_body source max_frame max_body in
        let h =
          read_all-IsRead r sizes
            (record { body = omega arith; frame = omega arith; offset = omega arith }) in
        (
          omega (arith, h.paid, h.within.body, h.same_body),
          omega (arith, h.within.frame, h.same_frame),
        )
