-- ===== src/Tests/Loading.antt =====
-- Examples for src/elf.rs.
use armx.Base.{ℕ, ◌+◌, ◌%◌, ◌^◌, ◌≤◌, ◌<◌, ◌≡◌, ◌⊎◌, refl, [], ◌∷◌, Option, some, none, true}
use armx.Base.Bytes.{Bytes, copy}
use armx.Runtime.Memory.{host_base, map, write_bytes}
use armx.Elf.{
  ObjectFile, LoadedElf, ok, align_up, page_size, scan, memory_size, write_segments, load_bytes,
  default_stack_size, address_space_slack,
}
use armx.Elf.Align.{align_up_lem}
use armx.Elf.Fits.{EndsWithin, load_bytes_within}

align_up_lem_example :
    ((2 ^ 64 ≤ 4097 + 4095) × (align_up 4097 page_size ≡ none))
    ⊎ ((r : ℕ) × (align_up 4097 page_size ≡ some r)
        × (r % 4096 ≡ 0)
        × (4097 ≤ r)
        × (r < 4097 + 4096))
align_up_lem_example = align_up_lem 4097

abbrev file : ObjectFile
file = record {
  is_aarch64 = true;
  entry = 0x400;
  segments = record { address = 0x400; size = 8; contents = some (1 ∷ 2 ∷ []) } ∷ [];
}

abbrev zeros : Bytes
zeros a = 0

abbrev image : LoadedElf
image = record {
  entry = 0x400;
  memory = record { base = host_base; size = 4096 + default_stack_size + address_space_slack };
  segments = record { address = 0x400; size = 8 } ∷ [];
}

abbrev honored : ℕ → ℕ → Option ℕ
honored address size = some address

file-loads :
    load_bytes (λ bytes. some file) honored [] zeros
    ≡ ok (image, copy (1 ∷ 2 ∷ []) (host_base + 0x400) zeros)
unfolding load_bytes scan memory_size align_up map write_segments write_bytes
file-loads = refl

load_bytes_within_example :
    (bound : ℕ) × EndsWithin bound image.segments
    × (bound + default_stack_size + address_space_slack ≤ image.memory.size)
    × (image.memory.base ≡ host_base)
load_bytes_within_example =
    load_bytes_within (λ bytes. some file) honored [] zeros
      (copy (1 ∷ 2 ∷ []) (host_base + 0x400) zeros) image file-loads
