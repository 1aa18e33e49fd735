-- ===== src/Loader/Segments.antt =====
-- kernel/src/loader.rs: the checks of a loadable segment.
use alexos.Base.{ℕ, ◌+◌, ◌%◌, ◌≤◌, ◌≡◌, refl, List, length, drop, length-take, arith}
use alexos.Mm.Addr.{page_size, user_max_addr}
use alexos.Loader.{
  ◌>>=◌, check_segment, Load, done, refused, panics, Segment, read_field, read_segment,
}

-- A segment above the guard page and below the kernel's half, that holds as many bytes as its
-- contents have, contents that start at the segment's offset in its first page.
pub record IsSafe (s : Segment) : Type 0 where
  pub above_guard : page_size ≤ s.vaddr
  pub in_user_half : s.end ≤ user_max_addr
  pub holds : s.vaddr + length s.content ≤ s.end
  pub placed : s.offset ≡ s.vaddr % page_size

pub >>=-done {ℓ κ} :
    {A : Type ℓ} {B : Type κ} (m : Load A) (f : A → Load B) {b : B}
    → (m >>= f) ≡ done b
    → (a : A) × (m ≡ done a) × (f a ≡ done b)
>>=-done (done a) f h = (a, refl, h)
>>=-done (refused e) f h = cc
>>=-done panics f h = cc

check_segment-IsSafe :
    (image : List ℕ) (flags offset vaddr filesz memsz : ℕ) {s : Segment}
    → check_segment image flags offset vaddr filesz memsz ≡ done s
    → IsSafe s
unfolding check_segment
check_segment-IsSafe image flags offset vaddr filesz memsz e =
    ground (arith, length-take filesz (drop offset image))

-- Every segment that passes the loader's checks starts above the guard page, ends within the user
-- half, and holds all of its contents from its offset in the first page on.
pub read_segment-IsSafe :
    (image : List ℕ) (ph : ℕ) {s : Segment} → read_segment image ph ≡ done s → IsSafe s
unfolding read_segment
read_segment-IsSafe image ph {s} e =
    let (p_flags, _, e₁) = >>=-done (read_field 4 image ph 4) _ e in
    let (p_offset, _, e₂) = >>=-done (read_field 8 image ph 8) _ e₁ in
    let (p_vaddr, _, e₃) = >>=-done (read_field 8 image ph 16) _ e₂ in
    let (p_filesz, _, e₄) = >>=-done (read_field 8 image ph 32) _ e₃ in
    let (p_memsz, _, e₅) = >>=-done (read_field 8 image ph 40) _ e₄ in
    check_segment-IsSafe image p_flags p_offset p_vaddr p_filesz p_memsz e₅
