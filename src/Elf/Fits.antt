-- ===== src/Elf/Fits.antt =====
-- src/elf.rs, `load_bytes`: where the segments of a loaded image lie.
use armx.Base.{
  ℕ, ◌+◌, ◌≤◌, ◌≡◌, refl, subst, arith, max, List, [], ◌∷◌, ◌++◌, Option, some, none, checked_add64,
  Bool-cases, Option-cases, inl, inr, ◌==◌,
}
use armx.Base.Bytes.{Bytes}
use armx.Runtime.Memory.{GuestMemory, IoResult, Unmap, map, host_base}
use armx.Runtime.Memory.Access.{map-at_base}
use armx.Elf.{
  ObjectFile, ObjectSegment, LoadSegment, LoadedElf, LoadResult, ok, err, scan, memory_size,
  write_segments, loaded, mapped, sized, scanned, load_file, load_bytes, default_stack_size,
  address_space_slack,
}
use armx.Elf.Align.{align_up_lem}

-- Every segment ends at `bound` at most.
abbrev pub EndsWithin : ℕ → List LoadSegment → Type 0
EndsWithin bound [] = Unit
EndsWithin bound (s ∷ segments) = (s.address + s.size ≤ bound) × EndsWithin bound segments

EndsWithin-++ :
    (bound : ℕ) (xs ys : List LoadSegment)
    → EndsWithin bound xs
    → EndsWithin bound ys
    → EndsWithin bound (xs ++ ys)
EndsWithin-++ bound [] ys hx hy = hy
EndsWithin-++ bound (x ∷ xs) ys hx hy = (hx.0, EndsWithin-++ bound xs ys hx.1 hy)

EndsWithin-≤ :
    (low high : ℕ) (xs : List LoadSegment) → low ≤ high → EndsWithin low xs → EndsWithin high xs
EndsWithin-≤ low high [] le h = tt
EndsWithin-≤ low high (x ∷ xs) le h = (omega (arith, h.0), EndsWithin-≤ low high xs le h.1)

-- What a scan gives, where it does not fail.
abbrev ScanOk : LoadResult (ℕ × List LoadSegment) → Type 0
ScanOk (ok (max_end, segments)) = EndsWithin max_end segments
ScanOk (err e) = Unit

scan-ScanOk :
    (file : List ObjectSegment) (max_end : ℕ) (segments : List LoadSegment)
    → EndsWithin max_end segments
    → ScanOk (scan file max_end segments)
unfolding scan
scan-ScanOk [] max_end segments h = h
scan-ScanOk (s ∷ rest) max_end segments h = elim (Bool-cases (s.size == 0)) [
  | inl z ↦ rw (scan, z) (scan-ScanOk rest max_end segments h)
  | inr z ↦ elim (Option-cases (checked_add64 s.address s.size)) [
    | inl over ↦ rw (scan, z, over) tt
    | inr (end, fits) ↦
        rw (scan, z, fits)
          (scan-ScanOk rest (max max_end end)
            (segments ++ record { address = s.address; size = s.size } ∷ [])
            (EndsWithin-++ (max max_end end) segments _
              (EndsWithin-≤ max_end (max max_end end) segments (omega arith) h) (ground arith, tt)))
  ]
]

memory_size-room :
    (max_end : ℕ) {size : ℕ}
    → memory_size max_end ≡ some size
    → max_end + default_stack_size + address_space_slack ≤ size
unfolding memory_size
memory_size-room max_end e = elim (align_up_lem max_end) [
  | inl (over, none_aligned) ↦ cc (rw none_aligned at e)
  | inr (r, aligned, multiple, below, above) ↦ ground (arith, rw aligned at e)
]

-- What `load_bytes` gives, where it does not fail.
abbrev pub LoadOk : LoadResult (LoadedElf × Bytes) → Type 0
LoadOk (ok (image, memory)) =
    (bound : ℕ) × EndsWithin bound image.segments
    × (bound + default_stack_size + address_space_slack ≤ image.memory.size)
    × (image.memory.base ≡ host_base)
LoadOk (err e) = Unit

loaded-LoadOk :
    (file : ObjectFile) (segments : List LoadSegment) (g : GuestMemory) (memory : LoadResult Bytes)
    (bound : ℕ)
    → EndsWithin bound segments
    → bound + default_stack_size + address_space_slack ≤ g.size
    → g.base ≡ host_base
    → LoadOk (loaded file segments g memory)
loaded-LoadOk file segments g (ok memory) bound h room base = (bound, h, room, base)
loaded-LoadOk file segments g (err e) bound h room base = tt

mapped-LoadOk :
    (mmap : ℕ → ℕ → Option ℕ) (file : ObjectFile) (segments : List LoadSegment) (memory : Bytes)
    (bound size : ℕ)
    → EndsWithin bound segments
    → bound + default_stack_size + address_space_slack ≤ size
    → LoadOk (mapped file segments memory (map mmap size).0)
mapped-LoadOk mmap file segments memory bound size h room =
    go (map mmap size).0 (map mmap size).1 refl
  where
    go :
        (r : IoResult GuestMemory) (calls : List Unmap)
        → map mmap size ≡ (r, calls)
        → LoadOk (mapped file segments memory r)
    go (IoResult.ok g) calls e =
        let (positive, honored, base, same, quiet) = map-at_base mmap size {calls = calls} e in
        loaded-LoadOk file segments g (write_segments g file.segments memory) bound h (omega arith)
          base
    go (IoResult.err x) calls e = tt

sized-LoadOk :
    (mmap : ℕ → ℕ → Option ℕ) (file : ObjectFile) (memory : Bytes) (max_end : ℕ)
    (segments : List LoadSegment) (size : Option ℕ)
    → EndsWithin max_end segments
    → memory_size max_end ≡ size
    → LoadOk (sized mmap file memory max_end segments size)
sized-LoadOk mmap file memory max_end segments none h e = tt
sized-LoadOk mmap file memory max_end segments (some size) h e =
    mapped-LoadOk mmap file segments memory max_end size h (memory_size-room max_end e)

scanned-LoadOk :
    (mmap : ℕ → ℕ → Option ℕ) (file : ObjectFile) (memory : Bytes)
    (r : LoadResult (ℕ × List LoadSegment))
    → ScanOk r
    → LoadOk (scanned mmap file memory r)
scanned-LoadOk mmap file memory (ok (max_end, [])) h = tt
scanned-LoadOk mmap file memory (ok (max_end, s ∷ segments)) h =
    sized-LoadOk mmap file memory max_end (s ∷ segments) (memory_size max_end) h refl
scanned-LoadOk mmap file memory (err e) h = tt

load_bytes-LoadOk :
    (object_parse : List ℕ → Option ObjectFile) (mmap : ℕ → ℕ → Option ℕ) (bytes : List ℕ)
    (memory : Bytes)
    → LoadOk (load_bytes object_parse mmap bytes memory)
unfolding load_bytes
load_bytes-LoadOk object_parse mmap bytes memory = go (object_parse bytes)
  where
    go : (file : Option ObjectFile) → LoadOk (load_file mmap memory file)
    go none = tt
    go (some file) = elim (Bool-cases file.is_aarch64) [
      | inl a ↦ rw a (
          scanned-LoadOk mmap file memory (scan file.segments 0 [])
            (scan-ScanOk file.segments 0 [] tt))
      | inr a ↦ rw a tt
    ]

-- A file that loads has its memory at the fixed base, with all of its segments inside and the sizes
-- of the stack and of the slack above them.
pub load_bytes_within :
    (object_parse : List ℕ → Option ObjectFile) (mmap : ℕ → ℕ → Option ℕ) (bytes : List ℕ)
    (memory memory' : Bytes) (image : LoadedElf)
    → load_bytes object_parse mmap bytes memory ≡ ok (image, memory')
    → (bound : ℕ) × EndsWithin bound image.segments
      × (bound + default_stack_size + address_space_slack ≤ image.memory.size)
      × (image.memory.base ≡ host_base)
load_bytes_within object_parse mmap bytes memory memory' image e =
    subst LoadOk e (load_bytes-LoadOk object_parse mmap bytes memory)
