-- ===== src/Loader/Tests.antt =====
-- The loader on the start of an image, and on one program header.
use alexos.Base.{ℕ, ◌≢◌, refl, List, [], ◌∷◌, Option, some, arith}
use alexos.Loader.{
  Segment, load, panics, read_segment, check_segment, read_field, read_int, from_le_bytes,
  segment_perm,
}
use alexos.Loader.Segments.{IsSafe, read_segment-IsSafe}
use alexos.Loader.Total.{IsBytes, load-ne-panics}

abbrev keep_segment : List Segment → Segment → Option (List Segment)
keep_segment w s = some (s ∷ w)

abbrev cut_image : List ℕ
cut_image = 0x7f ∷ 0x45 ∷ 0x4c ∷ 0x46 ∷ 2 ∷ 1 ∷ 1 ∷ []

cut_image-IsBytes : IsBytes cut_image
cut_image-IsBytes = (
  omega arith,
  (omega arith, (omega arith, (omega arith, (omega arith, (omega arith, (omega arith, tt)))))),
)

load-ne-panics_example : load keep_segment (some []) cut_image ≢ panics
load-ne-panics_example =
    load-ne-panics keep_segment (some []) cut_image cut_image-IsBytes (omega arith)

-- A segment of 4 bytes at 0x1004, read and execute, whose contents stand at byte 56.
abbrev one_header : List ℕ
one_header =
    1 ∷ 0 ∷ 0 ∷ 0 ∷ 5 ∷ 0 ∷ 0 ∷ 0 ∷ 56 ∷ 0 ∷ 0 ∷ 0 ∷ 0 ∷ 0 ∷ 0 ∷ 0 ∷ 4 ∷ 16 ∷ 0 ∷ 0 ∷ 0 ∷ 0 ∷ 0 ∷ 0
    ∷ 4 ∷ 16 ∷ 0 ∷ 0 ∷ 0 ∷ 0 ∷ 0 ∷ 0 ∷ 4 ∷ 0 ∷ 0 ∷ 0 ∷ 0 ∷ 0 ∷ 0 ∷ 0 ∷ 4 ∷ 0 ∷ 0 ∷ 0 ∷ 0 ∷ 0 ∷ 0 ∷ 0
    ∷ 0 ∷ 16 ∷ 0 ∷ 0 ∷ 0 ∷ 0 ∷ 0 ∷ 0 ∷ 1 ∷ 2 ∷ 3 ∷ 4 ∷ []

abbrev one_segment : Segment
one_segment = record {
  vaddr = 0x1004;
  end = 0x1008;
  perm = 0x1a;
  offset = 4;
  content = 1 ∷ 2 ∷ 3 ∷ 4 ∷ [];
}

read_segment-IsSafe_example : IsSafe one_segment
unfolding read_segment read_field read_int check_segment from_le_bytes segment_perm
read_segment-IsSafe_example = read_segment-IsSafe one_header 0 refl
